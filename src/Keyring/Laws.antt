-- ===== src/Keyring/Laws.antt =====
-- A keyring keeps its keys by type and in order, whichever way the map is ranged over.
use opni_monitoring.Prelude.{
  Str, Bool, true, false, List, [], ◌∷◌, ◌++◌, ok, ◌≡◌, refl, ap, sym, ◌∙◌, append_assoc,
  append-nil,
}
use opni_monitoring.Keyring.{
  SharedKeys, PkpKey, Key, Keyring, add_keys, new, all_shared, all_pkp, visited, merge, deep_copy,
  Json, CompleteKeyring, marshal, unmarshal, empty_keyring,
}

add_shared :
    (kr : Keyring) (ss : List SharedKeys) (ks : List Key)
    → add_keys kr (all_shared ss ++ ks)
      ≡ add_keys (record kr { shared_keys = kr.shared_keys ++ ss }) ks
unfolding add_keys
add_shared kr [] ks = rw append-nil
add_shared kr (s ∷ ss) ks =
    add_shared (record kr { shared_keys = kr.shared_keys ++ (s ∷ []) }) ss ks
    ∙ rw (append_assoc kr.shared_keys (s ∷ []) ss)

add_pkp :
    (kr : Keyring) (ps : List PkpKey) (ks : List Key)
    → add_keys kr (all_pkp ps ++ ks) ≡ add_keys (record kr { pkp_keys = kr.pkp_keys ++ ps }) ks
unfolding add_keys
add_pkp kr [] ks = rw append-nil
add_pkp kr (p ∷ ps) ks =
    add_pkp (record kr { pkp_keys = kr.pkp_keys ++ (p ∷ []) }) ps ks
    ∙ rw (append_assoc kr.pkp_keys (p ∷ []) ps)

add_visited :
    (order : Bool) (kr other : Keyring) (ks : List Key)
    → add_keys kr (visited order other ++ ks)
      ≡ add_keys
          (record {
            shared_keys = kr.shared_keys ++ other.shared_keys;
            pkp_keys = kr.pkp_keys ++ other.pkp_keys;
          })
          ks
unfolding visited
add_visited true kr other ks =
    rw (append_assoc (all_shared other.shared_keys) (all_pkp other.pkp_keys) ks) (
      add_shared kr other.shared_keys (all_pkp other.pkp_keys ++ ks)
      ∙ add_pkp (record kr { shared_keys = kr.shared_keys ++ other.shared_keys }) other.pkp_keys ks)
add_visited false kr other ks =
    rw (append_assoc (all_pkp other.pkp_keys) (all_shared other.shared_keys) ks) (
      add_pkp kr other.pkp_keys (all_shared other.shared_keys ++ ks)
      ∙ add_shared (record kr { pkp_keys = kr.pkp_keys ++ other.pkp_keys }) other.shared_keys ks)

-- Merging never panics, and gives for each type the keys of the first keyring and then those of
-- the second, in whatever order the types are ranged over on either side.
pub merge_lem :
    (order order' : Bool) (kr other : Keyring)
    → merge order order' kr other
      ≡ ok (record {
        shared_keys = kr.shared_keys ++ other.shared_keys;
        pkp_keys = kr.pkp_keys ++ other.pkp_keys;
      })
unfolding merge new
merge_lem order order' kr other =
    add_visited order empty_keyring kr (visited order' other)
    ∙ ap (λ (ks : List Key). add_keys kr ks) (sym (append-nil (visited order' other)))
    ∙ add_visited order' kr other []
    ∙ unfold add_keys in refl

-- A copy has the same keys as the keyring.
deep_copy_lem : (order : Bool) (kr : Keyring) → deep_copy order kr ≡ ok kr
unfolding deep_copy new
deep_copy_lem order kr =
    ap (λ (ks : List Key). add_keys empty_keyring ks) (sym (append-nil (visited order kr)))
    ∙ add_visited order empty_keyring kr []
    ∙ unfold add_keys in refl

-- A keyring that can be marshalled is read back as it was, if the JSON library reads back what it
-- wrote.
pub unmarshal-marshal :
    (json : Json) (kr : Keyring) (text : Str)
    → ((c : CompleteKeyring) (t : Str) → json.marshal c ≡ ok t → json.unmarshal t ≡ ok c)
    → marshal json kr ≡ ok text
    → unmarshal json text ≡ ok kr
unfolding marshal unmarshal
unmarshal-marshal json kr text reads_back h =
    rw (reads_back (record { shared_keys = kr.shared_keys; pkp_key = kr.pkp_keys }) text h)
      (unfold deep_copy visited in deep_copy_lem true kr)
