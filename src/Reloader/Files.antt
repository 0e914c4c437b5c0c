-- ===== src/Reloader/Files.antt =====
-- `computeConfigHash` of cmd/reloader/main.go.
pub mod Laws
use nginx_operator.Base.{
  String, ◌<>◌, ◌==◌, Char, code, Bool, true, false, List, [], ◌∷◌, eqb, ◌&&◌, ◌||◌, not,
  if◌then◌else◌, Result, ok, err, ◌>>=◌, wrap,
}

-- What `filepath.WalkDir` hands to the callback, in its order: a directory, a file with what
-- `os.ReadFile` gives for it, or an error of the walk.
pub data Visit : Type 0 where
  directory : (path : String) → Visit
  file : (path : String) (content : Result String) → Visit
  failure : (path problem : String) → Visit

abbrev push : String → Char → String
push s c = s <> String.◌∷◌ c String.[]

-- `filepath.Ext`: the last element of the path from its last dot on. `seen` is what was read since
-- that dot.
unfoldable pub ext_from : String → String → String
ext_from seen String.[] = seen
ext_from seen (String.◌∷◌ c s) =
    ext_from
      (if eqb (code c) b'/'
        then ""
        else if eqb (code c) b'.'
        then "."
        else if seen == ""
        then ""
        else push seen c)
      s

-- `filepath.Base` of a path that does not end in a slash.
unfoldable pub base_from : String → String → String
base_from seen String.[] = seen
base_from seen (String.◌∷◌ c s) = base_from (if eqb (code c) b'/' then "" else push seen c) s

unfoldable pub is_config_file : String → Bool
unfolding ext_from base_from
is_config_file path = ext_from "" path == ".conf" || base_from "" path == "nginx.conf"

-- The bytes that the callback writes to the hash for one visit.
unfoldable pub visit_bytes : Visit → Result String
visit_bytes (failure path problem) = err problem
visit_bytes (directory path) = ok ""
visit_bytes (file path content) =
    if is_config_file path
    then (do text ← wrap ("failed to read " <> path) content; ok (path <> text))
    else ok ""

-- The walk: the first error ends it.
unfoldable pub walk_bytes : List Visit → Result String
walk_bytes [] = ok ""
walk_bytes (v ∷ vs) = do here ← visit_bytes v; rest ← walk_bytes vs; ok (here <> rest)

unfoldable pub compute_config_hash : (String → String) → List Visit → Result String
compute_config_hash sha256_hex visits = do
  bytes ← wrap "failed to walk config directory" (walk_bytes visits)
  ok (sha256_hex bytes)
