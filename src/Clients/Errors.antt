-- ===== src/Clients/Errors.antt =====
-- pkg/clients/errors.go
use text.Mathlib.TextLemmas.{append_assoc}
use yurt_device_controller.Prelude.Texts.{contains_text-append}
use yurt_device_controller.Prelude.{
  refl, ◌≡◌, subst, arith, true, String, ◌<>◌, Bool, ◌||◌, contains_text, has_prefix,
}
use yurt_device_controller.Prelude.Io.{Error, new_error}

-- What `NotFoundError.Error()` returns.
abbrev pub not_found_error : Error
not_found_error = new_error "Item not found"

-- `IsNotFoundErr` on an error that is not nil: a test of its text.
unfoldable pub is_not_found_err : Error → Bool
is_not_found_err e = contains_text (e.message) "not found" || has_prefix (e.message) "no item found"

-- The texts that end in "not found", as those of the clients' `Get` do, are recognised.
pub not_found_suffix : (s : String) → is_not_found_err (new_error (s <> " not found")) ≡ true
unfolding is_not_found_err
not_found_suffix s =
    let found : contains_text (s <> " not found") "not found" ≡ true =
      subst (λ t. contains_text t "not found" ≡ true) (append_assoc s " " "not found")
        (contains_text-append (s <> " ") "not found") in
    ground (arith, found)

pub not_found_error_lem : is_not_found_err not_found_error ≡ true
unfolding is_not_found_err
not_found_error_lem = refl
