-- ===== src/Controllers/Differences/Agreement.antt =====
-- Where both platforms have the same names, a round creates and deletes nothing.
use yurt_device_controller.Prelude.{String, ◌≡◌, refl, arith, eq_iff, List, [], ◌∷◌, none}
use yurt_device_controller.Prelude.Dict.{Dict, lookup, contains}
use yurt_device_controller.Controllers.Differences.{Contents, keyed_by_name, find_differences}
use yurt_device_controller.Controllers.Differences.Laws.{
  find_differences_by_name, keyed_by_name-HasEdgeNames,
}

no_entries : {V : Type 0} (m : Dict V) → ((k : String) → lookup k m ≡ none) → m ≡ []
no_entries [] h = refl
no_entries ((j, v) ∷ m) h = absurd (ground (arith, h j, eq_iff j j))

module _ {T : Type 0} (c : Contents T) where
  -- For the maps that a round makes of two lists in which the same names occur: there is nothing to
  -- create and nothing to delete, so that the loops over both make no call.
  pub agreement_is_kept :
      (edge kube : List T)
      → let es = keyed_by_name c [] edge in
        let ks = keyed_by_name c [] kube in
        ((k : String) → contains k es ≡ contains k ks)
        → let (redundant_edge, redundant_kube, synced) = find_differences c es ks in
          (redundant_edge ≡ []) × (redundant_kube ≡ [])
  agreement_is_kept edge kube same =
      let es = keyed_by_name c [] edge in
      let ks = keyed_by_name c [] kube in
      let (ne, de) = keyed_by_name-HasEdgeNames c edge [] tt tt in
      let (nk, dk) = keyed_by_name-HasEdgeNames c kube [] tt tt in
      let found = find_differences_by_name c es ks in
      (
        no_entries (find_differences c es ks).0 (λ k. ground (arith, found k ne de nk dk, same k)),
        no_entries (find_differences c es ks).1 (λ k. ground (arith, found k ne de nk dk, same k)),
      )
