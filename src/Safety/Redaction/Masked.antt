-- ===== src/Safety/Redaction/Masked.antt =====
-- What a redacted value holds (src/kdive/safety/redaction.py).
use linux_debug_mcp.Base.{
  List, [], ◌∷◌, ap, ◌≡◌, ◌⊎◌, ◌↔◌, Option, none, some, refl, inl, inr, sym, ◌∙◌, String,
  String-discrete, Bool, true, false, holds, if◌then◌else◌, arith,
}
use linux_debug_mcp.Safety.Redaction.{Redactor}
use linux_debug_mcp.Safety.Redaction.Values.{
  redaction, Value, text, flag, plain, mapping, array, tuple, Items, nil, cons, Fields, end, field,
  is_true, is_sensitive, replace_all, is_masked, redact_value, redact_items, redact_fields,
}

-- A value beside a redacted one: of the same kind, with as many items under the same keys, and
-- with the same flags and other values. A text may be any, and so may an item that is masked.
unfoldable mutual
  pub HasShape : Value → Value → Type 0
  HasShape (text s) (text t) = Unit
  HasShape (flag b) (flag c) = b ≡ c
  HasShape (plain n) (plain m) = n ≡ m
  HasShape (mapping fs) (mapping gs) = HaveKeys fs gs
  HasShape (array vs) (array ws) = HaveItems vs ws
  HasShape (tuple vs) (tuple ws) = HaveItems vs ws
  HasShape _ _ = ⊥

  pub HaveItems : Items → Items → Type 0
  HaveItems nil nil = Unit
  HaveItems (cons v vs) (cons w ws) = HasShape v w × HaveItems vs ws
  HaveItems _ _ = ⊥

  pub HaveKeys : Fields → Fields → Type 0
  HaveKeys end end = Unit
  HaveKeys (field key item fs) (field key' item' gs) =
      (key ≡ key') × ((item' ≡ text redaction) ⊎ HasShape item item') × HaveKeys fs gs
  HaveKeys _ _ = ⊥

-- The item under the key, the first if there are more.
abbrev pub item_at : String → Fields → Option Value
item_at name end = none
item_at name (field key item fs) =
    if holds (String-discrete key name) then some item else item_at name fs

-- The item under this key of the mapping is to be masked: the key is a secret's name, or the mapping
-- holds the flag True under `sensitive` and the key is `path`.
abbrev pub IsSecret : (String → Bool) → Fields → String → Type 0
IsSecret has_secret_name fs key =
    (has_secret_name key ≡ true) ⊎ ((item_at "sensitive" fs ≡ some (flag true)) × (key ≡ "path"))

is_true_iff : (v : Value) → (is_true v ≡ true) ↔ (some v ≡ some (flag true))
is_true_iff (flag b) = ground arith
is_true_iff (text s) = (λ h. cc, λ h. cc)
is_true_iff (plain n) = (λ h. cc, λ h. cc)
is_true_iff (mapping fs) = (λ h. cc, λ h. cc)
is_true_iff (array vs) = (λ h. cc, λ h. cc)
is_true_iff (tuple vs) = (λ h. cc, λ h. cc)

is_sensitive_iff :
    (fs : Fields) → (is_sensitive fs ≡ true) ↔ (item_at "sensitive" fs ≡ some (flag true))
unfolding is_sensitive
is_sensitive_iff end = (λ h. cc, λ h. cc)
is_sensitive_iff (field key item fs) = ground (arith, is_true_iff item, is_sensitive_iff fs)

module _ (replace : String → String → String → String) (mask_pairs : String → String)
    (has_secret_name : String → Bool) where
  is_masked_iff :
      (fs : Fields) (key : String)
      → (is_masked replace mask_pairs has_secret_name (is_sensitive fs) key ≡ true)
        ↔ IsSecret has_secret_name fs key
  is_masked_iff fs key = ground (arith, is_sensitive_iff fs)

  -- Each of the values is replaced by the placeholder, one after the other.
  abbrev pub replaced : List String → String → String
  replaced [] s = s
  replaced (value ∷ values) s = replaced values (replace s value "[REDACTED]")

  replace_all-replaced :
      (values : List String) (s : String)
      → replace_all replace mask_pairs has_secret_name values s ≡ replaced values s
  unfolding replace_all
  replace_all-replaced [] s = refl
  replace_all-replaced (value ∷ values) s =
      replace_all-replaced values (replace s value "[REDACTED]")

  -- The text is the placeholder, or a text in which the secrets are replaced and then its pairs
  -- masked.
  abbrev pub IsRedacted : Redactor → String → Type 0
  IsRedacted redactor s =
      (s ≡ redaction) ⊎ ((t : String) × (s ≡ mask_pairs (replaced redactor.secret_values t)))

  unfoldable mutual
    pub IsClean : Redactor → Value → Type 0
    IsClean redactor (text s) = IsRedacted redactor s
    IsClean redactor (mapping fs) = AreClean redactor fs fs
    IsClean redactor (array vs) = EachClean redactor vs
    IsClean redactor (tuple vs) = EachClean redactor vs
    IsClean redactor (flag b) = Unit
    IsClean redactor (plain n) = Unit

    pub EachClean : Redactor → Items → Type 0
    EachClean redactor nil = Unit
    EachClean redactor (cons v vs) = IsClean redactor v × EachClean redactor vs

    -- Of the fields that are left of a mapping `all`: a key that is to be masked holds the
    -- placeholder, and any other a clean item.
    pub AreClean : Redactor → Fields → Fields → Type 0
    AreClean redactor all end = Unit
    AreClean redactor all (field key item fs) =
        ((IsSecret has_secret_name all key × (item ≡ text redaction))
          ⊎ ((¬ IsSecret has_secret_name all key) × IsClean redactor item))
        × AreClean redactor all fs

  is_true-redact_value :
      (redactor : Redactor) (v : Value)
      → is_true (redact_value replace mask_pairs has_secret_name redactor v) ≡ is_true v
  unfolding redact_value
  is_true-redact_value redactor (text s) = refl
  is_true-redact_value redactor (flag b) = refl
  is_true-redact_value redactor (plain n) = refl
  is_true-redact_value redactor (mapping fs) = refl
  is_true-redact_value redactor (array vs) = refl
  is_true-redact_value redactor (tuple vs) = refl

  is_true-masked :
      (redactor : Redactor) (masked : Bool) (v : Value)
      → is_true (
          if masked
          then text redaction
          else redact_value replace mask_pairs has_secret_name redactor v)
        ≡ true
      → is_true v ≡ true
  is_true-masked redactor true v h = cc
  is_true-masked redactor false v h = sym (is_true-redact_value redactor v) ∙ h

  marked :
      (redactor : Redactor) (marks masked : Bool) (item : Value) {rest rest' : Bool}
      → (rest' ≡ true → rest ≡ true)
      → (if marks
          then is_true (
              if masked
              then text redaction
              else redact_value replace mask_pairs has_secret_name redactor item)
          else rest')
        ≡ true
      → (if marks then is_true item else rest) ≡ true
  marked redactor true masked item later h = is_true-masked redactor masked item h
  marked redactor false masked item later h = later h

  -- A redacted mapping that is still marked sensitive was so before.
  is_sensitive-redact_fields :
      (redactor : Redactor) (b : Bool) (fs : Fields)
      → is_sensitive (redact_fields replace mask_pairs has_secret_name redactor b fs) ≡ true
      → is_sensitive fs ≡ true
  unfolding is_sensitive redact_value
  is_sensitive-redact_fields redactor b end h = h
  is_sensitive-redact_fields redactor b (field key item fs) h =
      marked redactor (holds (String-discrete key "sensitive"))
        (is_masked replace mask_pairs has_secret_name b key) item
        (is_sensitive-redact_fields redactor b fs) h

  -- An item that is masked, or redacted, in a mapping whose keys are masked no more than before.
  item-IsClean :
      (redactor : Redactor) (all : Fields) (key : String) (after before : Bool) (v : Value)
      → ((after ≡ true) ↔ IsSecret has_secret_name all key)
      → (after ≡ true → before ≡ true)
      → IsClean redactor v
      → (IsSecret has_secret_name all key
          × ((if before then text redaction else v) ≡ text redaction))
        ⊎ ((¬ IsSecret has_secret_name all key)
            × IsClean redactor (if before then text redaction else v))
  unfolding IsClean
  item-IsClean redactor all key true true v masks fewer h = inl (masks.0 refl, refl)
  item-IsClean redactor all key true false v masks fewer h =
      let apart : false ≡ true = fewer refl in cc
  item-IsClean redactor all key false true v masks fewer h =
      inr ((λ secret. let apart : false ≡ true = masks.1 secret in cc), inl refl)
  item-IsClean redactor all key false false v masks fewer h =
      inr ((λ secret. let apart : false ≡ true = masks.1 secret in cc), h)

  item-HasShape :
      (redactor : Redactor) (masked : Bool) (v w : Value)
      → HasShape v w
      → ((if masked then text redaction else w) ≡ text redaction)
        ⊎ HasShape v (if masked then text redaction else w)
  item-HasShape redactor true v w h = inl refl
  item-HasShape redactor false v w h = inr h

  mutual
    unfolding redact_value IsClean

    value_masked :
        (redactor : Redactor) (v : Value)
        → IsClean redactor (redact_value replace mask_pairs has_secret_name redactor v)
    value_masked redactor (text s) =
        inr (s, ap mask_pairs (replace_all-replaced redactor.secret_values s))
    value_masked redactor (flag b) = tt
    value_masked redactor (plain n) = tt
    value_masked redactor (mapping fs) =
        fields_masked redactor
          (redact_fields replace mask_pairs has_secret_name redactor (is_sensitive fs) fs)
          (is_sensitive fs) fs (is_sensitive-redact_fields redactor (is_sensitive fs) fs)
    value_masked redactor (array vs) = items_masked redactor vs
    value_masked redactor (tuple vs) = items_masked redactor vs

    items_masked :
        (redactor : Redactor) (vs : Items)
        → EachClean redactor (redact_items replace mask_pairs has_secret_name redactor vs)
    items_masked redactor nil = tt
    items_masked redactor (cons v vs) = (value_masked redactor v, items_masked redactor vs)

    fields_masked :
        (redactor : Redactor) (all : Fields) (before : Bool) (fs : Fields)
        → (is_sensitive all ≡ true → before ≡ true)
        → AreClean redactor all
            (redact_fields replace mask_pairs has_secret_name redactor before fs)
    fields_masked redactor all before end h = tt
    fields_masked redactor all before (field key item fs) h = (
      item-IsClean redactor all key
          (is_masked replace mask_pairs has_secret_name (is_sensitive all) key)
          (is_masked replace mask_pairs has_secret_name before key)
          (redact_value replace mask_pairs has_secret_name redactor item) (is_masked_iff all key)
          (λ masked. ground (arith, masked, h)) (value_masked redactor item),
      fields_masked redactor all before fs h,
    )

  mutual
    unfolding redact_value HasShape

    value_shape :
        (redactor : Redactor) (v : Value)
        → HasShape v (redact_value replace mask_pairs has_secret_name redactor v)
    value_shape redactor (text s) = tt
    value_shape redactor (flag b) = refl
    value_shape redactor (plain n) = refl
    value_shape redactor (mapping fs) = fields_shape redactor (is_sensitive fs) fs
    value_shape redactor (array vs) = items_shape redactor vs
    value_shape redactor (tuple vs) = items_shape redactor vs

    items_shape :
        (redactor : Redactor) (vs : Items)
        → HaveItems vs (redact_items replace mask_pairs has_secret_name redactor vs)
    items_shape redactor nil = tt
    items_shape redactor (cons v vs) = (value_shape redactor v, items_shape redactor vs)

    fields_shape :
        (redactor : Redactor) (sensitive : Bool) (fs : Fields)
        → HaveKeys fs (redact_fields replace mask_pairs has_secret_name redactor sensitive fs)
    fields_shape redactor sensitive end = tt
    fields_shape redactor sensitive (field key item fs) = (
      refl,
      item-HasShape redactor (is_masked replace mask_pairs has_secret_name sensitive key) item
          (redact_value replace mask_pairs has_secret_name redactor item)
          (value_shape redactor item),
      fields_shape redactor sensitive fs,
    )
