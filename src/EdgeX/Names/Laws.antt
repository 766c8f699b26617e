-- ===== src/EdgeX/Names/Laws.antt =====
-- What `toKubeName` leaves out of a name.
use Prim.Native.Char.{Char}
use yurt_device_controller.Prelude.{
  String, Bool, true, false, ◌≡◌, refl, ap, arith, Bool-cases, inl, inr, if◌then◌else◌,
}
use yurt_device_controller.EdgeX.Names.{
  GoText, same_char, translate, to_lower, dash, map_text, to_kube_name, is_ascii, uppers, lowers,
}

-- Some character of the text is among those of another text.
abbrev pub among : String → Char → Bool
among String.[] c = false
among (String.◌∷◌ x xs) c = if same_char c x then true else among xs c

abbrev pub has_any : String → String → Bool
has_any set String.[] = false
has_any set (String.◌∷◌ c s) = if among set c then true else has_any set s

same_length : String → String → Bool
same_length String.[] String.[] = true
same_length (String.◌∷◌ x xs) (String.◌∷◌ y ys) = same_length xs ys
same_length _ _ = false

-- A translated character is not among those of a set, if no translation is, and if the
-- characters of the set are all translated.
translate-among :
    (set xs ys : String) (c : Char)
    → same_length xs ys ≡ true
    → has_any set ys ≡ false
    → (among xs c ≡ false → among set c ≡ false)
    → among set (translate xs ys c) ≡ false
unfolding same_length
translate-among set String.[] String.[] c lengths clean all = all refl
translate-among set String.[] (String.◌∷◌ y ys) c lengths clean all = cc
translate-among set (String.◌∷◌ x xs) String.[] c lengths clean all = cc
translate-among set (String.◌∷◌ x xs) (String.◌∷◌ y ys) c lengths clean all =
    elim (Bool-cases (same_char c x)) [
      | inl same ↦ rw same (ground arith)
      | inr other ↦
          rw other (translate-among set xs ys c lengths (ground arith) (λ h. all (rw other h)))
    ]

map_text-has_any :
    (f : Char → Char) (set : String)
    → ((c : Char) → among set (f c) ≡ false)
    → (s : String) → has_any set (map_text f s) ≡ false
unfolding map_text
map_text-has_any f set h String.[] = refl
map_text-has_any f set h (String.◌∷◌ c s) = ground (arith, h c, map_text-has_any f set h s)

map_text-map_text :
    (f g : Char → Char) (s : String) → map_text f (map_text g s) ≡ map_text (λ c. f (g c)) s
unfolding map_text
map_text-map_text f g String.[] = refl
map_text-map_text f g (String.◌∷◌ c s) = ap (λ t. String.◌∷◌ (f (g c)) t) (map_text-map_text f g s)

-- `unicode.ToLower` gives no ASCII capital for a character outside ASCII.
abbrev pub IsLowering : GoText → Type 0
IsLowering go = (c : Char) → is_ascii c ≡ false → among uppers (go.wide_lower c) ≡ false

to_lower-among : (go : GoText) → IsLowering go → (c : Char) → among uppers (to_lower go c) ≡ false
unfolding to_lower same_length
to_lower-among go wide c = elim (Bool-cases (is_ascii c)) [
  | inl ascii ↦ rw ascii (translate-among uppers uppers lowers c refl refl (λ h. h))
  | inr other ↦ rw other (wide c other)
]

-- The name of a resource made from a name on the edge platform has no underscore and no ASCII
-- capital, which Kubernetes does not allow in names, provided that lowering a character outside
-- ASCII gives no ASCII capital.
pub to_kube_name_is_plain :
    (go : GoText) (name : String)
    → IsLowering go
    → (has_any "_" (to_kube_name go name) ≡ false) × (has_any uppers (to_kube_name go name) ≡ false)
unfolding to_kube_name dash same_length
to_kube_name_is_plain go name wide = (
  map_text-has_any dash "_" (λ c. translate-among "_" "_" "-" c refl refl (λ h. h))
      (map_text (to_lower go) name),
  rw (map_text-map_text dash (to_lower go) name) (
      map_text-has_any (λ c. dash (to_lower go c)) uppers
        (λ c.
          translate-among uppers "_" "-" (to_lower go c) refl refl (λ h. to_lower-among go wide c))
        name),
)
