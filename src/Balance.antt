-- ===== src/Balance.antt =====
-- grpc-client/src/balance.rs: round-robin over channels. A call is its index of a channel, and the
-- counter that the atomic `fetch_add` leaves; `connect` is the awaited connection to a URI.
use native.Mathlib.Nat.{mod-lt, mod-eq_of_lt}
use pure_grpc_rs.Base.{
  ℕ, zero, suc, ◌+◌, ◌%◌, ◌<◌, List, [], ◌∷◌, Option, none, some, ◌≡◌, refl, sym, ap, ◌∙◌, arith,
  Result, ok, err, ◌>>=◌, Result-cases, inl, inr, length, get_elem?,
}
use pure_grpc_rs.Base.Text.{ascii}
use pure_grpc_rs.Base.Words.{Bytes, usize_mod}

pub record BalancedChannel (C : Type 0) : Type 0 where
  pub channels : List C
  pub next : ℕ

module _ {U C : Type 0} (connect : U → Result Bytes C) where
  unfoldable pub connect_all : List U → Result Bytes (List C)
  connect_all [] = ok []
  connect_all (uri ∷ endpoints) = do
    channel ← connect uri
    channels ← connect_all endpoints
    ok (channel ∷ channels)

  unfoldable pub from_uris : List U → Result Bytes (BalancedChannel C)
  unfolding connect_all
  from_uris [] = err (ascii "at least one endpoint is required")
  from_uris (uri ∷ endpoints) = do
    channels ← connect_all (uri ∷ endpoints)
    ok (record { channels = channels; next = 0 })

module _ {C : Type 0} where
  abbrev pub num_endpoints : BalancedChannel C → ℕ
  num_endpoints b = length b.channels

  -- The remainder by the number of no channels panics.
  unfoldable pub call : BalancedChannel C → Option (C × BalancedChannel C)
  call b = elim (get_elem? b.channels (b.next % length b.channels)) [
    | none ↦ none
    | some channel ↦ some (channel, record b { next = (b.next + 1) % usize_mod })
  ]

  -- The channels of so many calls, one after the other.
  unfoldable pub calls : ℕ → BalancedChannel C → Option (List C)
  unfolding call
  calls zero b = some []
  calls (suc n) b = elim (call b) [
    | none ↦ none
    | some (c, b') ↦ elim (calls n b') [ none ↦ none | some cs ↦ some (c ∷ cs) ]
  ]

  get_in_range : (cs : List C) (i : ℕ) → i < length cs → (c : C) × (get_elem? cs i ≡ some c)
  get_in_range [] i l = absurd (omega (arith, l))
  get_in_range (c ∷ cs) zero l = (c, refl)
  get_in_range (c ∷ cs) (suc i) l = get_in_range cs i (omega (arith, l))

  -- A call takes the channel at the counter, modulo the number of channels.
  call-total :
      (b : BalancedChannel C)
      → 0 < num_endpoints b
      → (c : C) × (get_elem? b.channels (b.next % num_endpoints b) ≡ some c)
        × (call b ≡ some (c, record b { next = (b.next + 1) % usize_mod }))
  unfolding call
  call-total b l =
      let (c, e) = get_in_range b.channels (b.next % num_endpoints b) (mod-lt b.next l) in
      (c, e, rw (e, call) refl)

  calls-step :
      (n : ℕ) (b b' : BalancedChannel C) (c : C) (cs : List C)
      → call b ≡ some (c, b')
      → calls n b' ≡ some cs
      → calls (suc n) b ≡ some (c ∷ cs)
  unfolding calls
  calls-step n b b' c cs e f = rw (e, calls) (rw f refl)

  -- The channel at an index of a list of calls.
  picked :
      (n a i len : ℕ) (c : C) (cs channels : List C)
      → get_elem? channels (a % len) ≡ some c
      → ((j : ℕ) → j < n → get_elem? cs j ≡ get_elem? channels ((a + 1 + j) % len))
      → i < suc n
      → get_elem? (c ∷ cs) i ≡ get_elem? channels ((a + i) % len)
  picked n a zero len c cs channels e k l =
      sym e ∙ ap (λ m. get_elem? channels (m % len)) (omega arith)
  picked n a (suc j) len c cs channels e k l =
      k j (omega (arith, l)) ∙ ap (λ m. get_elem? channels (m % len)) (omega arith)

  Picks : ℕ → BalancedChannel C → Type 0
  Picks n b =
      (cs : List C) × (calls n b ≡ some cs)
      × (length cs ≡ n)
      × ((i : ℕ) → i < n → get_elem? cs i ≡ get_elem? b.channels ((b.next + i) % num_endpoints b))

  calls-Picks :
      (n : ℕ) (b : BalancedChannel C) → 0 < num_endpoints b → b.next + n < usize_mod → Picks n b
  unfolding Picks calls
  calls-Picks zero b l w = ([], refl, refl, λ i r. absurd (omega (arith, r)))
  calls-Picks (suc n) b l w =
      let (c, e, f) = call-total b l in
      let after : BalancedChannel C = record b { next = b.next + 1 } in
      let called : call b ≡ some (c, after) =
        f ∙ ap (λ m. some (c, record b { next = m })) (mod-eq_of_lt (omega (arith, w))) in
      let (cs, all, len, picks) = calls-Picks n after l (omega (arith, w)) in
      (
        c ∷ cs,
        calls-step n b after c cs called all,
        ap suc len,
        λ i r. picked n b.next i (num_endpoints b) c cs b.channels e picks r,
      )

  pub calls-round_robin :
      (n i : ℕ) (b : BalancedChannel C)
      → 0 < num_endpoints b
      → b.next + n < usize_mod
      → i < n
      → (cs : List C) × (calls n b ≡ some cs)
        × (length cs ≡ n)
        × (get_elem? cs i ≡ get_elem? b.channels ((b.next + i) % num_endpoints b))
  unfolding Picks
  calls-round_robin n i b l w r =
      let (cs, all, len, picks) = calls-Picks n b l w in (cs, all, len, picks i r)

module _ {U C : Type 0} (connect : U → Result Bytes C) where
  length-connect_all :
      (us : List U) (cs : List C) → connect_all connect us ≡ ok cs → length cs ≡ length us
  unfolding connect_all
  length-connect_all [] cs e = ground (arith, e)
  length-connect_all (u ∷ us) cs e = elim (Result-cases (connect u)) [
    | inr (f, p) ↦ ground (arith, e, p)
    | inl (c, p) ↦ elim (Result-cases (connect_all connect us)) [
      | inr (f, q) ↦ ground (arith, e, p, q)
      | inl (ds, q) ↦ ground (arith, e, p, q, length-connect_all us ds q)
    ]
  ]

  from_uris-fresh :
      (us : List U) (b : BalancedChannel C)
      → from_uris connect us ≡ ok b
      → (b.next ≡ 0) × (num_endpoints b ≡ length us) × (0 < num_endpoints b)
  unfolding from_uris
  from_uris-fresh [] b e = absurd (cc e)
  from_uris-fresh (u ∷ us) b e = elim (Result-cases (connect_all connect (u ∷ us))) [
    | inr (f, p) ↦ ground (arith, e, p)
    | inl (cs, p) ↦ ground (arith, e, p, length-connect_all (u ∷ us) cs p)
  ]

  -- A balanced channel that is made from some URIs has a channel for each, and of fewer than 2^64
  -- calls, the call of index `i` goes to the channel of index `i` modulo the number of URIs.
  pub calls-from_uris :
      (us : List U) (b : BalancedChannel C) (n i : ℕ)
      → from_uris connect us ≡ ok b
      → n < usize_mod
      → i < n
      → (cs : List C) × (calls n b ≡ some cs)
        × (length cs ≡ n)
        × (get_elem? cs i ≡ get_elem? b.channels (i % length us))
        × (num_endpoints b ≡ length us)
  calls-from_uris us b n i e w r =
      let (zeroed, len, pos) = from_uris-fresh us b e in
      let (cs, all, size, pick) = calls-round_robin n i b pos (omega (arith, w, zeroed)) r in
      (
        cs,
        all,
        size,
        pick ∙ rw (zeroed, len) (ap (λ m. get_elem? b.channels (m % length us)) (omega arith)),
        len,
      )
