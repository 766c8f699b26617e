-- ===== src/EdgeX/DeviceClient/Client/Created.antt =====
-- What `Create` returns.
use yurt_device_controller.Prelude.{
  ◌≡◌, arith, true, String, List, Option, none, some, [], ◌∷◌, Bool-cases, inl, inr, same_number,
}
use yurt_device_controller.Prelude.Io.{Io, attempt, Result, value, error, ok, of_result, ◌>>=◌}
use yurt_device_controller.Api.{Device}
use yurt_device_controller.EdgeX.Devices.{make_edgex_device_request}
use yurt_device_controller.EdgeX.Http.{post_method, IdResponse, Response}
use yurt_device_controller.EdgeX.DeviceClient.Client.{
  meta_url, EdgexDeviceClient, created_device, create_answered, create_encoded, create, settle,
}

module _ {W : Type 0} (efc : EdgexDeviceClient W) where
  created_device-fields :
      (d c : Device) (body : String) (ids : List (Option IdResponse)) (w : W)
      → (created_device efc d body ids w).0 ≡ ok c
      → c ≡ record d { status = record (d.status) { edge_id = c.status.edge_id; synced = true } }
  unfolding created_device
  created_device-fields d c body [] w h = cc
  created_device-fields d c body (none ∷ []) w h = cc
  created_device-fields d c body (some r ∷ []) w h = ground arith
  created_device-fields d c body (none ∷ q ∷ ids) w h = cc
  created_device-fields d c body (some r ∷ q ∷ ids) w h = cc

  create_answered-fields :
      (d c : Device) (q : Result Response) (w : W)
      → (create_answered efc d q w).0 ≡ ok c
      → c ≡ record d { status = record (d.status) { edge_id = c.status.edge_id; synced = true } }
  unfolding create_answered
  create_answered-fields d c (error e) w h = cc
  create_answered-fields d c (value resp) w h =
      elim (Bool-cases (same_number resp.status_code 207)) [
        | inl accepted ↦ after (efc.codec.decode_ids resp.body) (rw accepted at h)
        | inr refused ↦ cc (rw refused at h)
      ]
    where
      after :
          (ids : Result (List (Option IdResponse)))
          → ((settle (of_result ids) >>= created_device efc d resp.body) w).0 ≡ ok c
          → c
            ≡ record d { status = record (d.status) { edge_id = c.status.edge_id; synced = true } }
      after (error e) p = cc
      after (value l) p = created_device-fields d c resp.body l w p

  create_encoded-fields :
      (d c : Device) (q : Result String) (w : W)
      → (create_encoded efc d q w).0 ≡ ok c
      → c ≡ record d { status = record (d.status) { edge_id = c.status.edge_id; synced = true } }
  unfolding create_encoded
  create_encoded-fields d c (error e) w h = cc
  create_encoded-fields d c (value body) w h =
      sent (efc.http.send post_method (meta_url efc "") body w) h
    where
      sent :
          (q : Result Response × W)
          → ((let m : Io W Device = attempt (λ _. (of_result q.0, q.1)) >>= create_answered efc d in
                m)
              w).0
            ≡ ok c
          → c
            ≡ record d { status = record (d.status) { edge_id = c.status.edge_id; synced = true } }
      sent (error e, w') p = create_answered-fields d c (error e) w' p
      sent (value resp, w') p = create_answered-fields d c (value resp) w' p

  -- A created device differs from the one that was sent only in its id and in being synced.
  pub created_device_fields :
      (d c : Device) (w : W)
      → (create efc d w).0 ≡ ok c
      → c ≡ record d { status = record (d.status) { edge_id = c.status.edge_id; synced = true } }
  unfolding create
  created_device_fields d c w h =
      create_encoded-fields d c (efc.codec.encode_devices (make_edgex_device_request (d ∷ []))) w h
