-- ===== src/Repo/Prefixes.antt =====
-- `FastRepoImpl` of src/repo/fast-repo.cpp: which data prefixes the read handle listens to, and
-- what `enableListening` registers.
use fast_repo.Prelude.{
  ℕ, zero, suc, ◌≡◌, refl, ap, subst, ◌∙◌, sym, inl, inr, Bool, true, false, ◌||◌, List, [], ◌∷◌,
  ◌++◌, arith, All, if◌then◌else◌, Bool-cases,
}
use mathlib.Core.List.{append_assoc, append-nil}
use fast_repo.Prelude.Bytes.{Bytes}
use fast_repo.Ndn.{Ndn, Rocks}
use fast_repo.Handles.Base.{Effects, registered}
use fast_repo.Handles.Read.{listen}

abbrev insert_word : Bytes
insert_word = b'i' ∷ b'n' ∷ b's' ∷ b'e' ∷ b'r' ∷ b't' ∷ []

abbrev pub pattern_word : Bytes
pattern_word = b'p' ∷ b'a' ∷ b't' ∷ b't' ∷ b'e' ∷ b'r' ∷ b'n' ∷ []

abbrev pub cancel_word : Bytes
cancel_word = b'c' ∷ b'a' ∷ b'n' ∷ b'c' ∷ b'e' ∷ b'l' ∷ []

module _ (n : Ndn) (r : Rocks) where
  open n use {Name}

  -- The loop of `onDataInsertion` over `config_.dataPrefixes`.
  unfoldable pub is_covered : List Name → Name → Bool
  is_covered [] prefix = false
  is_covered (p ∷ ps) prefix = if n.is_prefix_of p prefix then true else is_covered ps prefix

  -- `onDataInsertion`, with `config_.dataPrefixes` for the state
  unfoldable pub on_data_insertion : List Name → Name → List Name × Effects n
  on_data_insertion data_prefixes prefix =
      if is_covered data_prefixes prefix
      then (data_prefixes, [])
      else (data_prefixes ++ prefix ∷ [], listen n r prefix)

  -- The signals `onDataInsertion` of the write and the pattern handle: one slot for each command
  -- prefix, since `enableListening` connects both in its loop.
  unfoldable pub fire : ℕ → List Name → Name → List Name × Effects n
  fire zero data_prefixes prefix = (data_prefixes, [])
  fire (suc slots) data_prefixes prefix =
      let (ps, es) = on_data_insertion data_prefixes prefix in
      let (qs, fs) = fire slots ps prefix in (qs, es ++ fs)

  -- One insertion after another.
  unfoldable pub insertions : List Name → List Name → List Name × Effects n
  insertions data_prefixes [] = (data_prefixes, [])
  insertions data_prefixes (name ∷ names) =
      let (ps, es) = on_data_insertion data_prefixes name in
      let (qs, fs) = insertions ps names in (qs, es ++ fs)

  abbrev pub listen_all : List Name → Effects n
  listen_all [] = []
  listen_all (p ∷ ps) = listen n r p ++ listen_all ps

  -- The callback of `initializeStorage` for the prefixes found in the store.
  unfoldable pub on_scanned : List Name → List Name → List Name × Effects n
  on_scanned data_prefixes prefixes = let all = data_prefixes ++ prefixes in (all, listen_all all)

  -- The Interest filters that `enableListening` sets for one command prefix.
  unfoldable pub filters : Name → List Name
  filters prefix =
      n.append_component prefix (n.component insert_word)
      ∷ n.append_component prefix (n.component pattern_word)
      ∷ n.append_component prefix (n.component cancel_word)
      ∷ []

  -- `enableListening`: the prefixes registered, the filters, and the slots of each signal.
  unfoldable pub enable_listening : List Name → Effects n × List Name × ℕ
  enable_listening [] = ([], [], 0)
  enable_listening (prefix ∷ rest) =
      let (es, fs, slots) = enable_listening rest in
      (registered prefix ∷ es, filters prefix ++ fs, suc slots)

  pub is_covered-append :
      (ps qs : List Name) (p : Name)
      → is_covered (ps ++ qs) p ≡ (is_covered ps p || is_covered qs p)
  unfolding is_covered
  is_covered-append [] qs p = refl
  is_covered-append (x ∷ ps) qs p = ground (arith, is_covered-append ps qs p)

  -- Each name is covered by none of those before it.
  abbrev pub Independent : List Name → List Name → Type 0
  Independent before [] = Unit
  Independent before (p ∷ ps) = (is_covered before p ≡ false) × Independent (before ++ p ∷ []) ps

  module _ (is_prefix_refl : (p : Name) → n.is_prefix_of p p ≡ true) where
    pub covered_self : (ps : List Name) (p : Name) → is_covered (ps ++ p ∷ []) p ≡ true
    covered_self ps p =
        is_covered-append ps (p ∷ []) p ∙ unfold is_covered in ground (arith, is_prefix_refl p)

    fire_covered :
        (slots : ℕ) (ps : List Name) (p : Name)
        → is_covered ps p ≡ true
        → fire slots ps p ≡ (ps, [])
    unfolding fire on_data_insertion
    fire_covered zero ps p h = refl
    fire_covered (suc slots) ps p h = rw (h, fire_covered slots ps p h)

    -- Where each name is a prefix of itself: however many slots are connected, at least one, a
    -- signal registers what one call registers.
    pub fire_once :
        (slots : ℕ) (ps : List Name) (p : Name) → fire (suc slots) ps p ≡ on_data_insertion ps p
    unfolding fire on_data_insertion
    fire_once slots ps p = elim (Bool-cases (is_covered ps p)) [
      | inl h ↦ rw (h, fire_covered slots ps p h)
      | inr h ↦
          rw (h, fire_covered slots (ps ++ p ∷ []) p (covered_self ps p))
            (ap (λ (x : Effects n). (ps ++ p ∷ [], x)) (append-nil (listen n r p)))
    ]

    abbrev pub Registers : List Name → List Name → List Name × Effects n → Type 0
    Registers ps names result =
        (qs : List Name) × (result.0 ≡ ps ++ qs)
        × (result.1 ≡ listen_all qs)
        × Independent ps qs
        × All (λ x. is_covered result.0 x ≡ true) names

    still_covered :
        (ps qs : List Name) (p : Name) → is_covered ps p ≡ true → is_covered (ps ++ qs) p ≡ true
    still_covered ps qs p h = is_covered-append ps qs p ∙ rw h

    insertions-old :
        (ps : List Name) (name : Name) (names : List Name)
        → is_covered ps name ≡ true
        → insertions ps (name ∷ names) ≡ insertions ps names
    unfolding insertions on_data_insertion
    insertions-old ps name names h = rw h

    insertions-new :
        (ps : List Name) (name : Name) (names : List Name)
        → is_covered ps name ≡ false
        → let (qs, es) = insertions (ps ++ name ∷ []) names in
          insertions ps (name ∷ names) ≡ (qs, listen n r name ++ es)
    unfolding insertions on_data_insertion
    insertions-new ps name names h = rw h

    -- Where each name is a prefix of itself: however many names are inserted, in whatever order,
    -- each of them is in the end covered by a data prefix. The prefixes added are just those
    -- listened to, once each and in order, and each was covered by no prefix before it.
    pub insertions_lem : (ps names : List Name) → Registers ps names (insertions ps names)
    insertions_lem ps [] = unfold insertions in ([], sym (append-nil ps), refl, tt, tt)
    insertions_lem ps (name ∷ names) = elim (Bool-cases (is_covered ps name)) [
      | inl h ↦
          let (qs, grown, heard, apart, covered) = insertions_lem ps names in
          subst (Registers ps (name ∷ names)) (sym (insertions-old ps name names h)) (
            qs,
            grown,
            heard,
            apart,
            (ap (λ x. is_covered x name) grown ∙ still_covered ps qs name h, covered),
          )
      | inr h ↦
          let (qs, grown, heard, apart, covered) = insertions_lem (ps ++ name ∷ []) names in
          subst (Registers ps (name ∷ names)) (sym (insertions-new ps name names h)) (
            name ∷ qs,
            grown ∙ append_assoc ps (name ∷ []) qs,
            ap (◌++◌ (listen n r name)) heard,
            (h, apart),
            (
              ap (λ x. is_covered x name) grown
                  ∙ still_covered (ps ++ name ∷ []) qs name (covered_self ps name),
              covered,
            ),
          )
    ]
