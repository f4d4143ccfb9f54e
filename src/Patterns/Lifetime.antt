-- ===== src/Patterns/Lifetime.antt =====
-- A callback of a counter pattern may come after the pattern is gone.
use fast_repo.Prelude.{ℕ, ◌≡◌, refl, inl, Option, some, List, ℕ_discrete, arith, if_pos, In}
use fast_repo.Prelude.Bytes.{Bytes}
use fast_repo.Prelude.StdMap.{find-insert, find-erase}
use fast_repo.Ndn.{Ndn, Rocks}
use fast_repo.Handles.Base.{Parameter, call_later, extract_parameter, append_components}
use fast_repo.Patterns.Fetch
use fast_repo.Patterns.Fetch.{Build, CounterPattern, counter_pattern}
use fast_repo.Patterns.Handle.{
  PatternHandle, fault, use_after_free, start, discard, on_cancel_request, on_timer,
}

module _ (n : Ndn) (r : Rocks) (build : Build n.Name) (decode : n.Component → Option Parameter)
    (decode_name : Bytes → Option (List Bytes)) where
  freed :
      (h : PatternHandle n r build decode decode_name) (fetch_prefix : n.Name) (address : ℕ)
      → on_timer n r build decode decode_name
          (discard n r build decode decode_name h fetch_prefix address).0
          address
        ≡ fault use_after_free
  unfolding on_timer discard
  freed h fetch_prefix address = ground (arith, find-erase ℕ_discrete address address h.objects)

  -- Starting a counter pattern sets a timer for the new object. If a well-formed cancel command
  -- for its prefix comes before the timer fires, the timer's callback runs on an object that is
  -- gone.
  pub cancelled_timer :
      (h : PatternHandle n r build decode decode_name) (interest fetch_prefix : n.Name)
      (p : CounterPattern n) (cancel_interest prefix : n.Name) (parameter : Parameter)
      → extract_parameter n decode cancel_interest prefix ≡ some parameter
      → append_components n n.empty_name parameter.name ≡ fetch_prefix
      → let (h', es) =
          start n r build decode decode_name h interest fetch_prefix (some (counter_pattern p)) in
        In (call_later 1 h.next) es
        × (on_timer n r build decode decode_name
              (on_cancel_request n r build decode decode_name h' cancel_interest prefix).0
              h.next
            ≡ fault use_after_free)
  unfolding start Fetch.fetch on_cancel_request
  cancelled_timer h interest fetch_prefix p cancel_interest prefix parameter extracted named =
      (inl refl, rw (extracted, named, find-insert, if_pos _ refl) (freed _ fetch_prefix h.next))
