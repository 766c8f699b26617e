-- ===== src/App/Helpers.antt =====
-- pkg/controllers/util/string.go, which the program does not call.
use yurt_device_controller.Prelude.{
  String, Bool, true, false, List, [], ◌∷◌, ◌==◌, if◌then◌else◌, ◌≡◌, ◌↔◌, arith, eq_iff,
  Bool-cases, inl, inr,
}
use mathlib.Core.List.{Memᴰ}
use mathlib.Core.List.Memᴰ.{head, tail}

-- The loop over no texts gives the result of the first test.
unfoldable pub is_in_string_lst : List String → String → Bool
is_in_string_lst [] str = false
is_in_string_lst (s ∷ ss) str = if str == s then true else is_in_string_lst ss str

is_in_string_lst-Mem :
    (ss : List String) (str : String) → (is_in_string_lst ss str ≡ true) ↔ Memᴰ str ss
unfolding is_in_string_lst
is_in_string_lst-Mem ss str = (found ss, listed ss)
  where
    found : (xs : List String) → is_in_string_lst xs str ≡ true → Memᴰ str xs
    found [] h = absurd cc
    found (x ∷ xs) h = elim (Bool-cases (str == x)) [
      | inl same ↦ head (ground (arith, eq_iff str x))
      | inr other ↦ tail (found xs (ground arith))
    ]

    listed : (xs : List String) → Memᴰ str xs → is_in_string_lst xs str ≡ true
    listed [] m = elim m [ ]
    listed (x ∷ xs) (head e) = ground (arith, eq_iff str x)
    listed (x ∷ xs) (tail m) = ground (arith, listed xs m)
