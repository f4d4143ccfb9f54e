-- ===== src/Storage/Read.antt =====
-- What `StorageEngineImpl::read` finds.
use fast_repo.Prelude.{
  ◌≡◌, refl, ◌≢◌, ◌⊎◌, inl, inr, ap, subst, sym, ◌∙◌, true, false, none, some, List, [], ◌∷◌, arith,
  if◌then◌else◌, In, All, Bool-cases,
}
use fast_repo.Prelude.Bytes.{
  Bytes, is_empty, is_empty_eq, le_empty, is_prefix, bytes_le, bytes_le_refl, le_of_is_prefix,
  is_prefix_between,
}
use fast_repo.Prelude.Int.{leb_ℤ}
use fast_repo.Ndn.{Ndn, Rocks, Interest, Ascending, IteratorLaws}
use fast_repo.Storage.Written.{get_eq}
use fast_repo.Storage.Engine.{
  Engine, ok, get, takes, find_key, read, check_max_suffix_components, check_min_suffix_components,
}

module _ (n : Ndn) (r : Rocks) (laws : IteratorLaws r) (i : Interest n.Name) where
  abbrev Eligible : Bytes → Type 0
  Eligible k = (is_prefix (n.to_uri i.name) k ≡ true) × (takes n r i k ≡ true)

  abbrev From : List (Bytes × Bytes) → Bytes → Bytes → Type 0
  From es key k = (k ≡ key) ⊎ ((v : Bytes) × In (k, v) es × Eligible k)

  From-next :
      (k v : Bytes) (es : List (Bytes × Bytes)) (key found : Bytes)
      → is_prefix (n.to_uri i.name) k ≡ true
      → From es (if takes n r i k then k else key) found
      → From ((k, v) ∷ es) key found
  From-next k v es key found p (inl e) = elim (Bool-cases (takes n r i k)) [
    | inl t ↦ inr (v, inl (ap (λ (x : Bytes). (x, v)) (e ∙ rw t)), (rw (e, t) p, rw (e, t) t))
    | inr f ↦ inl (e ∙ rw f)
  ]
  From-next k v es key found p (inr (w, m, el)) = inr (w, inr m, el)

  find_key-hit :
      (k v : Bytes) (es : List (Bytes × Bytes)) (key : Bytes)
      → is_prefix (n.to_uri i.name) k ≡ true
      → find_key n r i ((k, v) ∷ es) key ≡ find_key n r i es (if takes n r i k then k else key)
  unfolding find_key
  find_key-hit k v es key h = rw (laws.starts_with_lem k (n.to_uri i.name), h)

  find_key-miss :
      (k v : Bytes) (es : List (Bytes × Bytes)) (key : Bytes)
      → is_prefix (n.to_uri i.name) k ≡ false
      → find_key n r i ((k, v) ∷ es) key ≡ key
  unfolding find_key
  find_key-miss k v es key h = rw (laws.starts_with_lem k (n.to_uri i.name), h)

  -- the loop keeps its key, or takes one of the entries
  find_key-From : (es : List (Bytes × Bytes)) (key : Bytes) → From es key (find_key n r i es key)
  find_key-From [] key = inl (unfold find_key in refl)
  find_key-From ((k, v) ∷ es) key = elim (Bool-cases (is_prefix (n.to_uri i.name) k)) [
    | inl s ↦
        subst (From ((k, v) ∷ es) key) (sym (find_key-hit k v es key s))
          (From-next k v es key _ s (find_key-From es (if takes n r i k then k else key)))
    | inr s ↦ inl (find_key-miss k v es key s)
  ]

  above :
      (t : Bytes) (es : List (Bytes × Bytes)) (k v : Bytes)
      → All (λ e. bytes_le t e.0 ≡ true) es
      → In (k, v) es
      → bytes_le t k ≡ true
  above t [] k v a m = absurd m
  above t (e ∷ es) k v a (inl q) = rw (ap (λ (x : Bytes × Bytes). x.0) q) a.0
  above t (e ∷ es) k v a (inr m) = above t es k v a.1 m

  -- the loop never falls below its key, if the entries are above it
  find_key_above :
      (es : List (Bytes × Bytes)) (key : Bytes)
      → All (λ e. bytes_le key e.0 ≡ true) es
      → bytes_le key (find_key n r i es key) ≡ true
  find_key_above es key a = elim (find_key-From es key) [
    | inl e ↦ rw e (bytes_le_refl key)
    | inr (v, m, el) ↦ above key es _ v a m
  ]

  -- no eligible entry is above the key that the loop ends with
  find_key_greatest :
      (es : List (Bytes × Bytes)) (key k v : Bytes)
      → All (λ e. bytes_le (n.to_uri i.name) e.0 ≡ true) es
      → Ascending es
      → In (k, v) es
      → Eligible k
      → bytes_le k (find_key n r i es key) ≡ true
  find_key_greatest [] key k v lo asc m el = absurd m
  find_key_greatest ((j, w) ∷ es) key k v lo asc (inl q) (p, t) =
      let e : k ≡ j = ap (λ (x : Bytes × Bytes). x.0) q in
      rw (find_key-hit j w es key (rw (← e) p), ← e, t) (find_key_above es k (rw e asc.0))
  find_key_greatest ((j, w) ∷ es) key k v lo asc (inr m) (p, t) =
      let q = is_prefix_between (n.to_uri i.name) j k lo.0 (above j es k v asc.0 m) p in
      rw (find_key-hit j w es key q) (find_key_greatest es _ k v lo.1 asc.1 m (p, t))

  In-seek :
      (t : Bytes) (es : List (Bytes × Bytes)) (s : r.Store) (k v : Bytes)
      → All (λ e. r.get e.0 s ≡ some e.1) es
      → In (k, v) es
      → r.get k s ≡ some v
  In-seek t [] s k v a m = absurd m
  In-seek t (e ∷ es) s k v a (inl q) =
      ap (λ (x : Bytes × Bytes). r.get x.0 s) q ∙ a.0 ∙ sym (ap (λ (x : Bytes × Bytes). some x.1) q)
  In-seek t (e ∷ es) s k v a (inr m) = In-seek t es s k v a.1 m

  read_key :
      (e : Engine n r) (s : r.Store)
      → e.db ≡ some s
      → i.can_be_prefix ≡ true
      → read n r e i ≡ (
          let key = find_key n r i (r.seek (n.to_uri i.name) s) [] in
          if is_empty key then ok none else get n r e (n.of_uri key))
  unfolding read
  read_key e s d p = simp (p, d)

  -- The key that the loop of `read` ends with.
  abbrev pub found_key : r.Store → Bytes
  found_key s = find_key n r i (r.seek (n.to_uri i.name) s) []

  found_key_greatest :
      (s : r.Store) (k v : Bytes)
      → r.get k s ≡ some v
      → Eligible k
      → bytes_le k (found_key s) ≡ true
  found_key_greatest s k v h el =
      let uri = n.to_uri i.name in
      find_key_greatest (r.seek uri s) [] k v (laws.seek_above uri s) (laws.seek_ascending uri s)
        (laws.seek_complete uri k v s h (le_of_is_prefix uri k el.0)) el

  found_key_stored :
      (s : r.Store)
      → (found_key s ≡ [])
        ⊎ ((w : Bytes) × (r.get (found_key s) s ≡ some w) × Eligible (found_key s))
  found_key_stored s = elim (find_key-From (r.seek (n.to_uri i.name) s) []) [
    | inl e ↦ inl e
    | inr (w, m, el) ↦
        let uri = n.to_uri i.name in
        inr (w, In-seek uri (r.seek uri s) s (found_key s) w (laws.seek_sound uri s) m, el)
  ]

  -- By the laws of RocksDB's iterators, where every key of the open store is a URI that ndn-cpp prints as
  -- it reads it, and every value of it decodes: an Interest that can be a prefix, where the store holds
  -- an eligible key `k` (not empty, it begins with the Interest's URI and passes the test of the loop),
  -- is answered with the packet that is stored under the key that the loop finds; that key is eligible,
  -- and not below `k` in the bytewise order. As `k` is any such key, the one found is the greatest.
  pub read_greatest :
      (e : Engine n r) (s : r.Store) (k v : Bytes)
      → e.db ≡ some s
      → i.can_be_prefix ≡ true
      → r.get k s ≡ some v
      → Eligible k
      → k ≢ []
      → ((key w : Bytes) → r.get key s ≡ some w → n.to_uri (n.of_uri key) ≡ key)
      → ((key w : Bytes) → r.get key s ≡ some w → (x : n.Data) × (n.wire_decode w ≡ some x))
      → (w : Bytes) × (x : n.Data) × (read n r e i ≡ ok (some x))
        × (r.get (found_key s) s ≡ some w)
        × (n.wire_decode w ≡ some x)
        × Eligible (found_key s)
        × (bytes_le k (found_key s) ≡ true)
  read_greatest e s k v d p h el ne printed decodes = elim (found_key_stored s) [
    | inl q ↦ absurd (not_empty q)
    | inr (w, stored, taken) ↦
        let (x, decoded) = decodes (found_key s) w stored in
        (
          w,
          x,
          read_key e s d p
              ∙ rw (non_empty (Bool-cases (is_empty (found_key s)))) (
                  get_eq n r e s (n.of_uri (found_key s)) d
                  ∙ rw (printed (found_key s) w stored, stored, decoded) refl),
          stored,
          decoded,
          taken,
          found_key_greatest s k v h el,
        )
  ]
    where
      not_empty : found_key s ≢ []
      not_empty q =
          ne (le_empty k (subst (λ x. bytes_le k x ≡ true) q (found_key_greatest s k v h el)))

      non_empty :
          (is_empty (found_key s) ≡ true) ⊎ (is_empty (found_key s) ≡ false)
          → is_empty (found_key s) ≡ false
      non_empty (inl q) = absurd (not_empty (is_empty_eq (found_key s) q))
      non_empty (inr q) = q

  -- By the laws of RocksDB's iterators, if no key of the open store is eligible (begins with the
  -- Interest's URI and passes the test of the loop), an Interest that can be a prefix is left
  -- without an answer.
  pub read-none :
      (e : Engine n r) (s : r.Store)
      → e.db ≡ some s
      → i.can_be_prefix ≡ true
      → ((k v : Bytes) → r.get k s ≡ some v → ¬ Eligible k)
      → read n r e i ≡ ok none
  read-none e s d p nothing = elim (found_key_stored s) [
    | inl q ↦ read_key e s d p ∙ rw q
    | inr (w, stored, taken) ↦ absurd (nothing (found_key s) w stored taken)
  ]

-- With both suffix bounds set, and the lower one not above the upper, every key passes: the two
-- tests are joined by "or", so the bounds keep nothing out.
pub takes_everything :
    (n : Ndn) (r : Rocks) (i : Interest n.Name) (key : Bytes)
    → check_max_suffix_components n r i ≡ true
    → check_min_suffix_components n r i ≡ true
    → leb_ℤ i.min_suffix_components i.max_suffix_components ≡ true
    → takes n r i key ≡ true
unfolding takes
takes_everything n r i key hi lo h = rw (hi, lo) (ground arith)
