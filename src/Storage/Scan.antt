-- ===== src/Storage/Scan.antt =====
-- What `buildKeyTrie` counts and collects in its pass over the store.
use fast_repo.Prelude.{
  if◌then◌else◌, ℕ, ◌+◌, ◌%◌, ◌^◌, ◌<◌, ◌≡◌, ◌||◌, some, List, [], ◌∷◌, arith, length, any,
}
use fast_repo.Prelude.Bytes.{Bytes}
use fast_repo.Ndn.{Ndn, Rocks}
use fast_repo.Storage.Prefixes.{has_path, has_path-insert, begins, kept}
use fast_repo.Storage.Engine.{Engine, ok, err, scan_failed, visit, scan, build_key_trie}

-- The bytes of all values.
abbrev pub payload : List (Bytes × Bytes) → ℕ
payload [] = 0
payload ((k, v) ∷ es) = length v + payload es

module _ (n : Ndn) (r : Rocks) (split : Bytes → List Bytes) where
  n_keys-scan :
      (es : List (Bytes × Bytes)) (e : Engine n r)
      → (scan n r split es e).n_keys % 2 ^ 64 ≡ (e.n_keys + length es) % 2 ^ 64
  unfolding scan
  n_keys-scan [] e = omega arith
  n_keys-scan (entry ∷ es) e = omega (arith, n_keys-scan es (visit n r split entry e))

  value_size-scan :
      (es : List (Bytes × Bytes)) (e : Engine n r)
      → (scan n r split es e).value_size_bytes % 2 ^ 64 ≡ (e.value_size_bytes + payload es) % 2 ^ 64
  unfolding scan
  value_size-scan [] e = omega arith
  value_size-scan ((k, v) ∷ es) e = omega (arith, value_size-scan es (visit n r split (k, v) e))

  has_path-scan :
      (p : List Bytes) (es : List (Bytes × Bytes)) (e : Engine n r)
      → has_path p (scan n r split es e).keys_trie
        ≡ (has_path p e.keys_trie || any (λ entry. begins p (kept (split entry.0))) es)
  unfolding scan
  has_path-scan p [] e = ground arith
  has_path-scan p ((k, v) ∷ es) e = ground (
    arith,
    has_path-scan p es (visit n r split (k, v) e),
    has_path-insert p (split k) e.keys_trie,
  )

  small-scan :
      (es : List (Bytes × Bytes)) (e : Engine n r)
      → e.n_keys < 2 ^ 64
      → e.value_size_bytes < 2 ^ 64
      → ((scan n r split es e).n_keys < 2 ^ 64) × ((scan n r split es e).value_size_bytes < 2 ^ 64)
  unfolding scan
  small-scan [] e h k = (h, k)
  small-scan ((k, v) ∷ es) e h l =
      small-scan es (visit n r split (k, v) e) (omega arith) (omega arith)

  -- The pass over an open store fails just where the iterator's status is an error at its end. After it
  -- the counters are the number of its entries and the bytes of
  -- their values, modulo 2^64, and the paths of the trie are those from before and the beginnings
  -- of the stored keys' components.
  pub build_key_trie_lem :
      (e : Engine n r) (s : r.Store)
      → e.db ≡ some s
      → let es = r.seek_to_first s in
        let e' = scan n r split es (record e { n_keys = 0; value_size_bytes = 0 }) in
        (build_key_trie n r split e ≡ (if r.scan_ok s then ok e' else err scan_failed))
        × (e'.n_keys ≡ length es % 2 ^ 64)
        × (e'.value_size_bytes ≡ payload es % 2 ^ 64)
        × ((p : List Bytes)
            → has_path p e'.keys_trie
              ≡ (has_path p e.keys_trie || any (λ entry. begins p (kept (split entry.0))) es))
  unfolding build_key_trie
  build_key_trie_lem e s q =
      let es = r.seek_to_first s in
      let e0 : Engine n r = record e { n_keys = 0; value_size_bytes = 0 } in
      let small = small-scan es e0 (omega arith) (omega arith) in
      (
        simp q,
        omega (arith, n_keys-scan es e0),
        omega (arith, value_size-scan es e0),
        λ p. has_path-scan p es e0,
      )
