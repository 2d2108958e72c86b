-- ===== src/Link/Settings.antt =====
-- The runtime configuration over CAN: SET, GET and the sizes of the groups.
use spcd_actuator.Prelude.{
  ℕ, ◌≤◌, ◌<◌, ◌≡◌, ◌≢◌, Bool, List, [], ◌∷◌, ◌++◌, Option, none, some, arith, Option-cases, inl,
  inr, length, take, drop, refl, length-take, length-append,
}
use spcd_actuator.Floats.{Floats}
use spcd_actuator.Link.Protocol.{read_u8, le32}
use spcd_actuator.Link.Commands.{Call, Services, RuntimeConfig, IsSized, send_config}
use spcd_actuator.Link.Adapter.{Adapter}
use spcd_actuator.Link.Configuration.{
  group_size, group_bytes, set_group, conf_reply, cal_status, cal_value, handle_configuration,
  configuration_get, configuration_set, configuration_save, load_result, store_group,
  send_configuration_group, send_bytes, op_get, op_set,
}

module _ (fl : Floats) where
  -- A SET that copies its bytes into a writable group changes that group to the bytes, and no other.
  pub group_bytes-set_group :
      (g g' : ℕ) (bytes : List ℕ) (r : Services fl) (c : RuntimeConfig)
      → g < 4
      → g ≢ g'
      → (group_bytes fl g r (set_group g bytes c) ≡ some bytes)
        × (group_bytes fl g' r (set_group g bytes c) ≡ group_bytes fl g' r c)
  unfolding group_bytes set_group
  group_bytes-set_group g g' bytes r c h ne = ground arith

  group_bytes-set_group_self :
      (g : ℕ) (bytes : List ℕ) (r : Services fl) (c : RuntimeConfig)
      → g < 4
      → group_bytes fl g r (set_group g bytes c) ≡ some bytes
  unfolding group_bytes set_group
  group_bytes-set_group_self g bytes r c h = ground arith

  stored :
      (seq g : ℕ) (body : List ℕ) (r : Services fl) (a : Adapter fl)
      → g < 4
      → group_size g ≤ length body
      → r.applied (set_group g (take (group_size g) body) a.config)
        ≡ set_group g (take (group_size g) body) a.config
      → (configuration_set fl seq g body r a).0.config
        ≡ set_group g (take (group_size g) body) a.config
  unfolding configuration_set store_group send_configuration_group group_bytes send_bytes group_size
  stored seq g body r a h enough e = ground arith

  -- The bytes that a SET writes are what a GET of the same group sends afterwards, behind the header
  -- of its reply, where the services accept the values as they are: for each of the four writable
  -- groups, and whatever follows the group's bytes in the SET.
  pub get_after_set :
      (seq seq' g : ℕ) (body : List ℕ) (r r' : Services fl) (a : Adapter fl)
      → g < 4
      → group_size g ≤ length body
      → r.applied (set_group g (take (group_size g) body) a.config)
        ≡ set_group g (take (group_size g) body) a.config
      → (configuration_get fl seq' g r' (configuration_set fl seq g body r a).0).0.calls
        ≡ send_config (conf_reply seq' op_get g r'.flash_valid ++ take (group_size g) body)
          ∷ (configuration_set fl seq g body r a).0.calls
  unfolding configuration_get send_configuration_group send_bytes group_size
  get_after_set seq seq' g body r r' a h enough e = ground (
    arith,
    stored seq g body r a h enough e,
    group_bytes-set_group_self g (take (group_size g) body) r' a.config h,
  )

  -- Every configuration frame fits a CAN-FD frame.
  abbrev pub FitFrames : List (Call fl) → Type 0
  FitFrames [] = Unit {0}
  FitFrames (send_config bytes ∷ cs) = (length bytes ≤ 64) × FitFrames cs
  FitFrames (_ ∷ cs) = FitFrames cs

  abbrev pub IsFit : Adapter fl → Type 0
  IsFit a = IsSized a.config × FitFrames a.calls

  length-cal_status : (r : Services fl) → length (cal_status fl r) ≡ 20
  unfolding cal_status cal_value le32
  length-cal_status r = refl

  length-group_bytes :
      (g : ℕ) (r : Services fl) (c : RuntimeConfig) {bytes : List ℕ}
      → IsSized c
      → group_bytes fl g r c ≡ some bytes
      → length bytes ≤ 56
  unfolding group_bytes
  length-group_bytes g r c h e = ground (arith, length-cal_status r)

  length-conf_reply : (seq op g : ℕ) (v : Bool) → length (conf_reply seq op g v) ≡ 8
  unfolding conf_reply
  length-conf_reply seq op g v = refl

  send_configuration_group-IsFit :
      (seq op g : ℕ) (r : Services fl) (a : Adapter fl)
      → IsFit a
      → IsFit (send_configuration_group fl seq op g r a).0
  unfolding send_configuration_group send_bytes
  send_configuration_group-IsFit seq op g r a h =
      elim (Option-cases (group_bytes fl g r a.config)) [
        | inl e ↦ ground arith
        | inr (bytes, e) ↦ ground (
          arith,
          length-group_bytes g r a.config h.0 e,
          length-conf_reply seq op g r.flash_valid,
          length-append (conf_reply seq op g r.flash_valid) bytes,
        )
      ]

  set_group-IsSized :
      (g : ℕ) (body : List ℕ) (c : RuntimeConfig)
      → group_size g ≤ length body
      → IsSized c
      → IsSized (set_group g (take (group_size g) body) c)
  unfolding set_group group_size
  set_group-IsSized g body c enough h = ground (arith, length-take (group_size g) body)

  store_group-IsFit :
      (seq g : ℕ) (body : List ℕ) (r : Services fl) (a : Adapter fl)
      → ((c : RuntimeConfig) → IsSized c → IsSized (r.applied c))
      → group_size g ≤ length body
      → IsFit a
      → IsFit (store_group fl seq g body r a).0
  unfolding store_group
  store_group-IsFit seq g body r a keep enough h =
      send_configuration_group-IsFit seq op_set g r _
        (keep _ (set_group-IsSized g body a.config enough h.0), h.1)

  configuration_get-IsFit :
      (seq g : ℕ) (r : Services fl) (a : Adapter fl)
      → IsFit a
      → IsFit (configuration_get fl seq g r a).0
  unfolding configuration_get
  configuration_get-IsFit seq g r a h =
      ground (arith, send_configuration_group-IsFit seq op_get g r a h)

  configuration_set-IsFit :
      (seq g : ℕ) (body : List ℕ) (r : Services fl) (a : Adapter fl)
      → ((c : RuntimeConfig) → IsSized c → IsSized (r.applied c))
      → IsFit a
      → IsFit (configuration_set fl seq g body r a).0
  unfolding configuration_set
  configuration_set-IsFit seq g body r a keep h =
      ground (arith, λ (e : group_size g ≤ length body). store_group-IsFit seq g body r a keep e h)

  configuration_save-IsFit :
      (g : ℕ) (r : Services fl) (a : Adapter fl) → IsFit a → IsFit (configuration_save fl g r a).0
  unfolding configuration_save
  configuration_save-IsFit g r a h = ground arith

  load_result-IsFit :
      (o : Option RuntimeConfig) (a : Adapter fl)
      → ((c : RuntimeConfig) → o ≡ some c → IsSized c)
      → IsFit a
      → IsFit (load_result {fl = fl} o a).0
  unfolding load_result
  load_result-IsFit none a sized h = h
  load_result-IsFit (some c) a sized h = (sized c refl, h.1)

  -- A configuration command keeps the sizes of the four groups, and every frame that it sends fits in
  -- 64 bytes, whatever its payload, where the services keep the structs' sizes.
  pub handle_configuration-IsFit :
      (seq : ℕ) (p : List ℕ) (r : Services fl) (a : Adapter fl)
      → ((c : RuntimeConfig) → IsSized c → IsSized (r.applied c))
      → ((c : RuntimeConfig) → r.loaded ≡ some c → IsSized c)
      → IsSized r.defaults
      → IsFit a
      → IsFit (handle_configuration fl seq p r a).0
  unfolding handle_configuration
  handle_configuration-IsFit seq p r a keep loaded defaults h = ground (
    arith,
    configuration_get-IsFit seq (read_u8 p 1) r a h,
    configuration_set-IsFit seq (read_u8 p 1) (drop 4 p) r a keep h,
    configuration_save-IsFit (read_u8 p 1) r a h,
    load_result-IsFit r.loaded a loaded h,
  )
