-- ===== src/TransportBuilder/Dispatch.antt =====
-- Which factory makes the transport.
use mom_rpc.Base.{subst, String, true, none, some, ◌≡◌, inl, inr, arith, eq_iff, Bool-cases, str_eq}
use mom_rpc.Error.{Result-cases, is_ok, >>=-eq-ok, ok}
use mom_rpc.TransportBuilder.{TransportBuilder, Factories, configure, dispatch, build}
use mom_rpc.Domain.{TransportConfig}

module _ {T : Type 0} (f : Factories T) where
  -- The factory that a type name stands for made this transport.
  pub data MadeBy (c : TransportConfig) (t : T) (flag : String) : Type 0 where
    rumqttc : flag ≡ "rumqttc" → f.create_rumqttc_transport c ≡ ok t → MadeBy c t flag
    lapin : flag ≡ "lapin" → f.create_lapin_transport c ≡ ok t → MadeBy c t flag
    dust_dds : flag ≡ "dust-dds" → f.create_dust_dds_transport c ≡ ok t → MadeBy c t flag
    redis : flag ≡ "redis" → f.create_redis_transport c ≡ ok t → MadeBy c t flag
    memory : flag ≡ "memory" → f.create_memory_transport c ≡ ok t → MadeBy c t flag

  dispatch-MadeBy :
      (flag : String) (c : TransportConfig) (t : T)
      → dispatch f (some flag) c ≡ ok t
      → MadeBy c t flag
  unfolding dispatch
  dispatch-MadeBy flag c t h = elim (Bool-cases (str_eq flag "rumqttc")) [
    | inl e ↦ rumqttc ((eq_iff _ _).0 e) (rw e at h)
    | inr e ↦
        let h1 = rw e at h in
        elim (Bool-cases (str_eq flag "lapin")) [
          | inl e ↦ lapin ((eq_iff _ _).0 e) (rw e at h1)
          | inr e ↦
              let h2 = rw e at h1 in
              elim (Bool-cases (str_eq flag "dust-dds")) [
                | inl e ↦ dust_dds ((eq_iff _ _).0 e) (rw e at h2)
                | inr e ↦
                    let h3 = rw e at h2 in
                    elim (Bool-cases (str_eq flag "redis")) [
                      | inl e ↦ redis ((eq_iff _ _).0 e) (rw e at h3)
                      | inr e ↦
                          let h4 = rw e at h3 in
                          elim (Bool-cases (str_eq flag "memory")) [
                            | inl e ↦ memory ((eq_iff _ _).0 e) (rw e at h4)
                            | inr e ↦ absurd (cc (rw e at h4))
                          ]
                    ]
              ]
        ]
  ]

  -- A builder with a transport type never falls back: a transport that it builds was made, from
  -- the validated configuration, by the factory of that name.
  pub build-MadeBy :
      (b : TransportBuilder) (flag : String) (t : T)
      → b.transport_type ≡ some flag
      → build f b ≡ ok t
      → (c : TransportConfig) × (configure b ≡ ok c) × MadeBy c t flag
  unfolding build
  build-MadeBy b flag t named h =
      let (c, e, made) = >>=-eq-ok (configure b) _ h in
      (c, e, dispatch-MadeBy flag c t (subst (λ o. dispatch f o c ≡ ok t) named made))

  dispatch-none-is_ok :
      (c : TransportConfig)
      → is_ok (f.create_memory_transport c) ≡ true
      → is_ok (dispatch f none c) ≡ true
  unfolding dispatch
  dispatch-none-is_ok c h = ground arith

  -- Without a transport type, and with a memory transport that can always be made, `build` fails
  -- only in its validation.
  pub build_falls_back :
      (b : TransportBuilder)
      → b.transport_type ≡ none
      → ((c : TransportConfig) → is_ok (f.create_memory_transport c) ≡ true)
      → is_ok (build f b) ≡ is_ok (configure b)
  unfolding build
  build_falls_back b untyped always = elim (Result-cases (configure b)) [
    | inl (c, e) ↦ rw (e, untyped) (dispatch-none-is_ok c (always c))
    | inr (x, e) ↦ rw (e, build)
  ]
