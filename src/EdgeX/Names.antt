-- ===== src/EdgeX/Names.antt =====
-- The names of one object on both platforms: `toKubeName` and `getEdgeXName`
-- (pkg/clients/edgex-foundry/util.go), and the `GetEdge…Name` functions of
-- pkg/controllers/util/tools.go.
pub mod Laws
use Prim.Native.Char.{Char, code}
use Prim.Native.Nat.{compare, Ordering}
use yurt_device_controller.Prelude.{ℕ, String, Bool, Option, none, some, if◌then◌else◌, true, false}
use yurt_device_controller.Prelude.Dict.{lookup}
use yurt_device_controller.Api.{ObjectMeta, Device, DeviceService, DeviceProfile}

abbrev pub edgex_object_name : String
edgex_object_name = "device-controller/edgex-object.name"

-- What of Go's standard library the translation takes as given: `unicode.ToLower` outside ASCII,
-- and `fmt.Sprintf` of an int by %d and of a float64 by %f.
pub record GoText : Type 0 where
  pub wide_lower : Char → Char
  pub format_int : ℕ → String
  pub format_float : ℕ → String

abbrev pub same_char : Char → Char → Bool
same_char c d = elim (compare (code c) (code d)) [ Ordering.eq ↦ true | _ ↦ false ]

abbrev pub is_ascii : Char → Bool
is_ascii c = elim (compare (code c) 128) [ Ordering.lt ↦ true | _ ↦ false ]

-- The character of the second text that stands where `c` stands in the first, else `c`.
abbrev pub translate : String → String → Char → Char
translate (String.◌∷◌ x xs) (String.◌∷◌ y ys) c = if same_char c x then y else translate xs ys c
translate _ _ c = c

abbrev pub uppers : String
uppers = "ABCDEFGHIJKLMNOPQRSTUVWXYZ"

abbrev pub lowers : String
lowers = "abcdefghijklmnopqrstuvwxyz"

pub map_text : (Char → Char) → String → String
map_text f String.[] = String.[]
map_text f (String.◌∷◌ c s) = String.◌∷◌ (f c) (map_text f s)

-- `strings.ToLower` on one character
pub to_lower : GoText → Char → Char
to_lower go c = if is_ascii c then translate uppers lowers c else go.wide_lower c

-- `strings.ReplaceAll(s, "_", "-")` on one character
pub dash : Char → Char
dash c = translate "_" "-" c

-- `toKubeName`
unfoldable pub to_kube_name : GoText → String → String
unfolding map_text to_lower dash
to_kube_name go edgex_name = map_text dash (map_text (to_lower go) edgex_name)

-- `v, ok := labels[label]`, with the object's name when the label is missing
abbrev pub label_or : Option String → String → String
label_or (some v) name = v
label_or none name = name

-- `getEdgeXName`, on the metadata of the provider
unfoldable pub get_edgex_name : ObjectMeta → String
get_edgex_name m = label_or (lookup edgex_object_name m.labels) m.name

unfoldable pub get_edge_device_name : Device → String → String
get_edge_device_name d label = label_or (lookup label d.metadata.labels) d.metadata.name

unfoldable pub get_edge_device_service_name : DeviceService → String → String
get_edge_device_service_name ds label = label_or (lookup label ds.metadata.labels) ds.metadata.name

unfoldable pub get_edge_device_profile_name : DeviceProfile → String → String
get_edge_device_profile_name dp label = label_or (lookup label dp.metadata.labels) dp.metadata.name
