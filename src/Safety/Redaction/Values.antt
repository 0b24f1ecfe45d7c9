-- ===== src/Safety/Redaction/Values.antt =====
-- The redaction of texts and structures (src/kdive/safety/redaction.py). `str.replace`, the
-- substitution of the `key=value` pattern and the search of the secret-key pattern are Python's,
-- and parameters here.
use linux_debug_mcp.Base.{
  ℕ, String, String-discrete, Bool, false, ◌&&◌, ◌||◌, List, [], ◌∷◌, holds, if◌then◌else◌,
}
use linux_debug_mcp.Safety.Redaction.{Redactor}

abbrev pub redaction : String
redaction = "[REDACTED]"

mutual
  -- A `plain` value is one of no type that `redact_value` looks at; its number tells it apart.
  pub data Value : Type 0 where
    text : String → Value
    flag : Bool → Value
    plain : ℕ → Value
    mapping : Fields → Value
    array : Items → Value
    tuple : Items → Value

  pub data Items : Type 0 where
    nil : Items
    cons : Value → Items → Items

  pub data Fields : Type 0 where
    end : Fields
    field : String → Value → Fields → Fields

-- `value is True`.
abbrev pub is_true : Value → Bool
is_true (flag b) = b
is_true _ = false

-- `value.get("sensitive") is True`.
unfoldable pub is_sensitive : Fields → Bool
is_sensitive end = false
is_sensitive (field key item fs) =
    if holds (String-discrete key "sensitive") then is_true item else is_sensitive fs

module _ (replace : String → String → String → String) (mask_pairs : String → String)
    (has_secret_name : String → Bool) where
  unfoldable pub replace_all : List String → String → String
  replace_all [] s = s
  replace_all (value ∷ values) s = replace_all values (replace s value redaction)

  abbrev pub redact_text : Redactor → String → String
  redact_text redactor s = mask_pairs (replace_all redactor.secret_values s)

  -- The value under this key is masked whatever it is.
  abbrev pub is_masked : Bool → String → Bool
  is_masked sensitive key = (sensitive && holds (String-discrete key "path")) || has_secret_name key

  unfoldable mutual
    pub redact_value : Redactor → Value → Value
    redact_value redactor (text s) = text (redact_text redactor s)
    redact_value redactor (mapping fs) = mapping (redact_fields redactor (is_sensitive fs) fs)
    redact_value redactor (array vs) = array (redact_items redactor vs)
    redact_value redactor (tuple vs) = tuple (redact_items redactor vs)
    redact_value redactor (flag b) = flag b
    redact_value redactor (plain n) = plain n

    pub redact_items : Redactor → Items → Items
    redact_items redactor nil = nil
    redact_items redactor (cons v vs) = cons (redact_value redactor v) (redact_items redactor vs)

    pub redact_fields : Redactor → Bool → Fields → Fields
    redact_fields redactor sensitive end = end
    redact_fields redactor sensitive (field key item fs) =
        field key (if is_masked sensitive key then text redaction else redact_value redactor item)
          (redact_fields redactor sensitive fs)
