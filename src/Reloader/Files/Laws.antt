-- ===== src/Reloader/Files/Laws.antt =====
-- Which changes of the directory the hash of cmd/reloader/main.go sees.
use text.Mathlib.TextLemmas.{append_assoc, nil-append}
use nginx_operator.Base.{
  ◌≡◌, refl, String, ◌<>◌, true, false, List, [], ◌∷◌, ◌++◌, Result, ok, err, ◌>>=◌, ap, sym, ◌∙◌,
}
use nginx_operator.Reloader.Files.{
  Visit, directory, file, is_config_file, visit_bytes, walk_bytes, compute_config_hash,
}

-- A visit that the hash passes over.
pub data IsIgnored : Visit → Type 0 where
  a_directory : (path : String) → IsIgnored (directory path)
  another_file :
      (path : String) (content : Result String)
      → is_config_file path ≡ false
      → IsIgnored (file path content)

visit_bytes_ignored : {v : Visit} → IsIgnored v → visit_bytes v ≡ ok ""
unfolding visit_bytes
visit_bytes_ignored (a_directory path) = refl
visit_bytes_ignored (another_file path content h) = rw h refl

add_nothing : (r : Result String) → (r >>= λ rest. ok ("" <> rest)) ≡ r
add_nothing (ok s) = ap ok (nil-append s)
add_nothing (err e) = refl

walk_bytes_ignored :
    (vs : List Visit) (v : Visit) (ws : List Visit)
    → IsIgnored v
    → walk_bytes (vs ++ (v ∷ ws)) ≡ walk_bytes (vs ++ ws)
unfolding walk_bytes
walk_bytes_ignored [] v ws h = rw (visit_bytes_ignored h) (add_nothing (walk_bytes ws))
walk_bytes_ignored (u ∷ vs) v ws h = rw (walk_bytes_ignored vs v ws h) refl

-- Adding or removing, at any place of the walk, a directory or a file that is neither named
-- nginx.conf nor has the extension .conf does not change the outcome, whether or not the file can
-- be read.
pub compute_config_hash_ignored :
    (sha256_hex : String → String) (vs : List Visit) (v : Visit) (ws : List Visit)
    → IsIgnored v
    → compute_config_hash sha256_hex (vs ++ (v ∷ ws)) ≡ compute_config_hash sha256_hex (vs ++ ws)
unfolding compute_config_hash
compute_config_hash_ignored sha256_hex vs v ws h = rw (walk_bytes_ignored vs v ws h) refl

merged_bytes :
    (p q a b : String) (r : Result String)
    → (r >>= (λ rest. ok ((q <> b) <> rest)) >>= (λ rest. ok ((p <> a) <> rest)))
      ≡ (r >>= λ rest. ok ((p <> (a <> (q <> b))) <> rest))
merged_bytes p q a b (ok s) =
    ap ok (sym (append_assoc (p <> a) (q <> b) s) ∙ ap (λ t. t <> s) (append_assoc p a (q <> b)))
merged_bytes p q a b (err e) = refl

walk_bytes_merged :
    (p q a b : String) (ws : List Visit)
    → is_config_file p ≡ true
    → is_config_file q ≡ true
    → walk_bytes (file p (ok a) ∷ file q (ok b) ∷ ws)
      ≡ walk_bytes (file p (ok (a <> (q <> b))) ∷ ws)
unfolding walk_bytes visit_bytes
walk_bytes_merged p q a b ws hp hq = rw (hp, hq) (merged_bytes p q a b (walk_bytes ws))

-- What follows on the same visits keeps its bytes.
walk_bytes_after :
    (vs xs ys : List Visit)
    → walk_bytes xs ≡ walk_bytes ys
    → walk_bytes (vs ++ xs) ≡ walk_bytes (vs ++ ys)
unfolding walk_bytes
walk_bytes_after [] xs ys e = e
walk_bytes_after (v ∷ vs) xs ys e = rw (walk_bytes_after vs xs ys e) refl

-- At any place of the walk, two configuration files that follow one another have the hash of one, if
-- the one holds the text of the first, the path of the second and the text of the second.
pub compute_config_hash_merged :
    (sha256_hex : String → String) (vs : List Visit) (p q a b : String) (ws : List Visit)
    → is_config_file p ≡ true
    → is_config_file q ≡ true
    → compute_config_hash sha256_hex (vs ++ (file p (ok a) ∷ file q (ok b) ∷ ws))
      ≡ compute_config_hash sha256_hex (vs ++ (file p (ok (a <> (q <> b))) ∷ ws))
unfolding compute_config_hash
compute_config_hash_merged sha256_hex vs p q a b ws hp hq =
    rw (walk_bytes_after vs _ _ (walk_bytes_merged p q a b ws hp hq)) refl
