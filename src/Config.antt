-- ===== src/Config.antt =====
-- The computed settings of app/core/config.py.
use Prim.Native.String.{len, ◌++◌}
use lms_backend.Base.{
  ℕ, zero, suc, ◌-◌, String, Bool, true, false, not, List, map, filter, ◌==◌, string_eq, lower,
  split, strip, starts_with, or_empty, if◌then◌else◌,
}
use lms_backend.Store.{Settings}

-- `is_production`
unfoldable pub is_production : Settings → Bool
is_production s = lower s.environment == "production"

-- `cors_origin_list`
unfoldable pub cors_origin_list : Settings → List String
unfolding strip
cors_origin_list s = map strip (filter (λ o. not (strip o == "")) (split b',' s.cors_origins))

-- `text.replace(old, new)`, after the characters of an occurrence that are still to be left out
unfoldable pub replace_from : String → String → ℕ → String → String
replace_from old new skip String.[] = String.[]
replace_from old new (suc skip) (String.◌∷◌ c s) = replace_from old new skip s
replace_from old new zero (String.◌∷◌ c s) = elim (starts_with old (String.◌∷◌ c s)) [
  | true ↦ new ++ replace_from old new (len old - 1) s
  | false ↦ String.◌∷◌ c (replace_from old new 0 s)
]

-- `sync_database_url`
unfoldable pub sync_database_url : Settings → String
unfolding replace_from
sync_database_url s =
    if or_empty s.database_sync_url == ""
    then replace_from "+asyncpg" "+psycopg" 0 s.database_url
    else or_empty s.database_sync_url
