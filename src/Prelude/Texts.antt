-- ===== src/Prelude/Texts.antt =====
-- A text contains the end that was appended to it.
use Prim.Native.Nat.{ℕ, ◌+◌, ◌≤◌}
use Prim.Native.Char.{code, len_utf8}
use Prim.Native.String.append
use Prim.Native.String.find
use Prim.Native.String.len
use Prim.Native.String.{String, [], ◌∷◌, ◌++◌, begins, find, len}
use mathlib.Core.Path.{◌≡◌, refl, ◌∙◌}
use mathlib.Core.Bool.{true}
use mathlib.Core.Logic.{inl, inr}
use native.Mathlib.Omega.{arith}
use text.Mathlib.TextFind.{begins_cases}
use text.Mathlib.TextPositions.{compare_self, len-append}
use yurt_device_controller.Prelude.Tests.{contains_text}

begins_self : (t : String) (y n : ℕ) → begins t t y n ≡ y
begins_self [] y n = refl
begins_self (c ∷ t) y n = rw (compare_self (code c)) (begins_self t y n)

find_self : (t : String) → find t t ≡ 0
find_self [] = find.nil []
find_self (c ∷ t) = find.cons c t (c ∷ t) ∙ begins_self (c ∷ t) 0 _

find-append : (s t : String) → find (s ++ t) t ≤ len s
find-append [] t = rw (append.nil t, find_self t) (omega arith)
find-append (c ∷ s) t =
    rw (append.cons c s t, find.cons c (s ++ t) t)
      (elim (begins_cases (c ∷ (s ++ t)) t 0 (len_utf8 c + find (s ++ t) t)) [
        | inl hit ↦ rw hit.0 (omega arith)
        | inr on ↦ rw (on, len.cons c s) (omega (arith, find-append s t))
      ])

pub contains_text-append : (s t : String) → contains_text (s ++ t) t ≡ true
contains_text-append s t = ground (arith, find-append s t, len-append s t)
