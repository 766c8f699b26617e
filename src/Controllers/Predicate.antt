-- ===== src/Controllers/Predicate.antt =====
-- pkg/controllers/predicate.go: the filter on update events of the controllers for devices and
-- device profiles.
use yurt_device_controller.Prelude.{Bool, not, ◌&&◌, Option, some, false}
use yurt_device_controller.Api.{EdgeXObject, is_added_to_edgex}

-- `UpdateFunc` of `genFirstUpdateFilter`, on the old and the new object: `none` is an object that
-- is no `EdgeXObject`. It is false where the event is to be ignored.
unfoldable pub first_update_filter : Option EdgeXObject → Option EdgeXObject → Bool
first_update_filter (some old) (some new) =
    not (not (is_added_to_edgex old) && is_added_to_edgex new)
first_update_filter _ _ = false
