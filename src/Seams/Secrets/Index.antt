-- ===== src/Seams/Secrets/Index.antt =====
-- The constructor of the secrets store (src/kdive/seams/secrets.py).
use linux_debug_mcp.Base.{
  ◌≡◌, ap, subst, inl, inr, Bool-cases, String, true, Option, some, List, [], ◌∷◌, Result, ok, err,
  >>=-eq-ok, arith, set_item, has_key, find_item, find_item-set_item,
}
use linux_debug_mcp.Seams.Secrets.{
  SecretReference, SecretReferenceKind, SecretsResolutionError, Backend, SecretsStore,
  index_definitions, new_store,
}

-- Each definition stands under its own reference.
abbrev pub AllFound : List SecretReference → List (String × SecretReference) → Type 0
AllFound [] by_reference = Unit
AllFound (d ∷ ds) by_reference =
    (find_item d.reference by_reference ≡ some d) × AllFound ds by_reference

find_item-has_key :
    (ref : String) (d : SecretReference) (m : List (String × SecretReference))
    → find_item ref m ≡ some d
    → has_key ref m ≡ true
unfolding find_item has_key
find_item-has_key ref d [] h = cc
find_item-has_key ref d ((k, e) ∷ m) h = ground (arith, h, find_item-has_key ref d m)

-- The loop keeps what it has indexed.
index_definitions-keeps :
    (ds : List SecretReference) (m out : List (String × SecretReference)) (ref : String)
    (d : SecretReference)
    → index_definitions ds m ≡ ok out
    → find_item ref m ≡ some d
    → find_item ref out ≡ some d
unfolding index_definitions
index_definitions-keeps [] m out ref d h found = ground (arith, h, found)
index_definitions-keeps (e ∷ ds) m out ref d h found = elim (Bool-cases (has_key e.reference m)) [
  | inl twice ↦ ground (arith, h, twice)
  | inr fresh ↦
      index_definitions-keeps ds (set_item e.reference e m) out ref d (ground (arith, h, fresh)) (
        ground
          (arith, fresh, found, find_item-set_item ref e.reference e m, find_item-has_key ref d m))
]

index_definitions-AllFound :
    (ds : List SecretReference) (m out : List (String × SecretReference))
    → index_definitions ds m ≡ ok out
    → AllFound ds out
unfolding index_definitions
index_definitions-AllFound [] m out h = tt
index_definitions-AllFound (d ∷ ds) m out h = elim (Bool-cases (has_key d.reference m)) [
  | inl twice ↦ ground (arith, h, twice)
  | inr fresh ↦
      let later : index_definitions ds (set_item d.reference d m) ≡ ok out =
        ground (arith, h, fresh) in
      (
        index_definitions-keeps ds (set_item d.reference d m) out d.reference d later
            (ground (arith, find_item-set_item d.reference d.reference d m)),
        index_definitions-AllFound ds (set_item d.reference d m) out later,
      )
]

-- The index of a store that was constructed.
abbrev indexed_by : Result SecretsResolutionError SecretsStore → List (String × SecretReference)
indexed_by (ok store) = store.by_reference
indexed_by (err e) = []

-- A store that is constructed gives every definition under its own reference: no definition hides
-- another, since two of one reference are refused.
pub new_store-AllFound :
    (definitions : List SecretReference) (backends : SecretReferenceKind → Option Backend)
    (store : SecretsStore)
    → new_store definitions backends ≡ ok store
    → AllFound definitions store.by_reference
new_store-AllFound definitions backends store h =
    let (m, indexed, e) = >>=-eq-ok (index_definitions definitions []) _ h in
    subst (AllFound definitions) (ap indexed_by e)
      (index_definitions-AllFound definitions [] m indexed)
