-- ===== src/Licensing/Access.antt =====
-- What `tenant_has_module` answers from a cache that is not there, is empty, or is filled.
use lms_backend.Base.{
  ltb, arith, if◌then◌else◌, ◌≡◌, refl, String, Bool, ◌||◌, none, some, List, ◌∷◌, ◌+◌, contains,
  string_eq, Bool-cases, Option-cases, inl, inr,
}
use lms_backend.Shared.Errors.{ok}
use lms_backend.Models.{Uuid}
use lms_backend.Store.{World, RedisCommand, set, enabled_modules, codes, pure, case_option, ◌>>=◌}
use lms_backend.External.{External}
use lms_backend.Licensing.Service.{
  core_codes, enabled_in, enabled_codes, compute_enabled, tenant_has_module, invalidate, cache_ttl,
}

module _ (x : External) where
  -- the module is a core one, or the tables grant it now
  abbrev pub has_now : World → Uuid → String → Bool
  has_now w tenant_id code =
      contains core_codes code || contains (enabled_in w.db w.now tenant_id) code

  -- Without Redis the answer is always what the tables say.
  pub tenant_has_module-no_redis :
      (tenant_id : Uuid) (code : String) (w : World)
      → w.redis ≡ none
      → tenant_has_module x tenant_id code w ≡ (ok (has_now w tenant_id code), w)
  unfolding tenant_has_module enabled_codes compute_enabled case_option pure ◌>>=◌
  tenant_has_module-no_redis tenant_id code w h = elim (Bool-cases (contains core_codes code)) [
    | inl e ↦ rw (e, h) refl
    | inr e ↦ rw (e, h) refl
  ]

  -- An answer that Redis had nothing for is kept for a minute: asked again with the Redis that it left, and
  -- in a state that is arbitrary otherwise, `tenant_has_module` answers what the tables said the first
  -- time, whatever they say by then, until 60 seconds have passed, and from then on what they say now.
  pub tenant_has_module-cached :
      (tenant_id : Uuid) (code : String) (log : List RedisCommand) (w w' : World)
      → w.redis ≡ some log
      → x.redis_get log w.now (enabled_modules tenant_id) ≡ none
      → w'.redis ≡ (tenant_has_module x tenant_id code w).1.redis
      → (tenant_has_module x tenant_id code w').0
        ≡ ok (
            if ltb w'.now (w.now + 60) then has_now w tenant_id code else has_now w' tenant_id code)
  unfolding tenant_has_module enabled_codes compute_enabled case_option pure ◌>>=◌
  tenant_has_module-cached tenant_id code log w w' there miss same =
      let key = enabled_modules tenant_id in
      let cs = enabled_in w.db w.now tenant_id in
      elim (Bool-cases (contains core_codes code)) [
        | inl e ↦
            rw e (elim (Bool-cases (ltb w'.now (w.now + 60))) [
              | inl f ↦ rw f refl
              | inr f ↦ rw f refl
            ])
        | inr e ↦
            (let kept : w'.redis ≡ some (set w.now key (codes cs) cache_ttl ∷ log) =
                rw (e, there, miss) at same in
              elim (Bool-cases (ltb w'.now (w.now + 60))) [
                | inl f ↦
                    (let hit =
                        x.redis_get-set log w.now w'.now key (codes cs) cache_ttl (ground arith) in
                      rw (e, kept, hit, f) refl)
                | inr f ↦
                    (let gone =
                        x.redis_get-set_late log w.now w'.now key (codes cs) cache_ttl
                          (ground arith) in
                      rw (e, kept, gone, f) refl)
              ])
      ]

  -- After `invalidate` the answer is what the tables say, whatever Redis held before.
  pub tenant_has_module-invalidate :
      (tenant_id : Uuid) (code : String) (w : World)
      → (tenant_has_module x tenant_id code (invalidate x tenant_id w).1).0
        ≡ ok (has_now w tenant_id code)
  unfolding tenant_has_module enabled_codes compute_enabled case_option pure ◌>>=◌ invalidate
  tenant_has_module-invalidate tenant_id code w = elim (Bool-cases (contains core_codes code)) [
    | inl e ↦ rw e refl
    | inr e ↦ elim (Option-cases w.redis) [
      | inl gone ↦ rw (e, gone) refl
      | inr (log, there) ↦
          let miss = x.redis_get-delete log w.now w.now (enabled_modules tenant_id) in
          rw (e, there, miss) refl
    ]
  ]
