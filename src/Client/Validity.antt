-- ===== src/Client/Validity.antt =====
-- cms/nicofclt.c: what holds of the request pool between two calls.
pub mod Calls
use nicof.Prelude.{
  ℕ, zero, suc, ◌+◌, ◌-◌, ◌%◌, ◌^◌, ◌≤◌, ◌<◌, ◌≡◌, refl, sym, ◌≢◌, ◌⊎◌, inl, inr, Bool, true, false,
  Option, none, some, List, [], ◌∷◌, All, All-map, arith, length, ◌==◌, if◌then◌else◌, Bool-cases,
  Option-cases,
}
use nicof.Client.{
  Request, Client, max_packet_len, mid_free, mid_new, mid_rcvd, mid_rtrn, mid_pend, first, modify,
  find, on,
}

-- A state, or the number of a message that has been sent.
abbrev pub IsState : ℕ → ℕ → Type 0
IsState last m =
    (m ≡ mid_free) ⊎ (m ≡ mid_new) ⊎ (m ≡ mid_rcvd) ⊎ (m ≡ mid_rtrn) ⊎ ((mid_pend < m) × (m ≤ last))

pub record IsSlot (last : ℕ) (r : Request) : Type 0 where
  pub room : length r.buf ≡ max_packet_len
  pub fits : r.data_len ≤ max_packet_len
  pub state : IsState last r.msg_id

-- Two requests have two addresses, and do not wait for the same message.
pub record Apart (r q : Request) : Type 0 where
  pub handles : r.me ≢ q.me
  pub messages : mid_pend < r.msg_id → r.msg_id ≢ q.msg_id

abbrev pub AllApart : List Request → Type 0
AllApart [] = Unit {0}
AllApart (r ∷ rs) = All (Apart r) rs × AllApart rs

pub record IsValid (c : Client) : Type 0 where
  pub slots : All (IsSlot c.last_msg_id) c.requests
  pub apart : AllApart c.requests
  pub counter : mid_pend ≤ c.last_msg_id

-- A write that keeps the pool valid: the message number stays, ends, or is a new one.
pub record IsSafe (last next : ℕ) (r q : Request) : Type 0 where
  pub same : q.me ≡ r.me
  pub slot : IsSlot next q
  pub message : (q.msg_id ≡ r.msg_id) ⊎ (q.msg_id ≤ mid_pend) ⊎ (last < q.msg_id)

left-Apart :
    {last next : ℕ} (r q p : Request) → IsSlot last q → IsSafe last next r p → Apart r q → Apart p q
left-Apart r q p s f a = record {
  handles = λ e. a.handles (ground (arith, f.same));
  messages = λ h e. ground (arith, s.state, f.message, a.messages);
}

right-Apart :
    {last next : ℕ} (r q p : Request) → IsSlot last r → IsSafe last next q p → Apart r q → Apart r p
right-Apart r q p s f a = record {
  handles = λ e. a.handles (ground (arith, f.same));
  messages = λ h e. ground (arith, s.state, f.message, a.messages);
}

IsSlot_mono : {last next : ℕ} → last ≤ next → (r : Request) → IsSlot last r → IsSlot next r
IsSlot_mono h r s = record { room = s.room; fits = s.fits; state = ground (arith, s.state) }

module _ {last next : ℕ} (grows : last ≤ next) (test : Request → Bool) (f : Request → Request) where
  abbrev pub Keeps : Type 0
  Keeps = (r : Request) → test r ≡ true → IsSlot last r → IsSafe last next r (f r)

  modify-slots :
      Keeps → (rs : List Request) → All (IsSlot last) rs → All (IsSlot next) (modify test f rs)
  unfolding modify
  modify-slots k [] s = tt
  modify-slots k (r ∷ rs) s = elim (Bool-cases (test r)) [
    | inl e ↦ rw e ((k r e s.0).slot, All-map (IsSlot_mono grows) rs s.1)
    | inr e ↦ rw e (IsSlot_mono grows r s.0, modify-slots k rs s.1)
  ]

  modify-Apart :
      Keeps
      → (q : Request) → IsSlot last q
      → (rs : List Request) → All (IsSlot last) rs
      → All (Apart q) rs
      → All (Apart q) (modify test f rs)
  unfolding modify
  modify-Apart k q t [] s a = tt
  modify-Apart k q t (r ∷ rs) s a = elim (Bool-cases (test r)) [
    | inl e ↦ rw e (right-Apart q r (f r) t (k r e s.0) a.0, a.1)
    | inr e ↦ rw e (a.0, modify-Apart k q t rs s.1 a.1)
  ]

  Apart-all :
      (r p : Request)
      → IsSafe last next r p
      → (rs : List Request) → All (IsSlot last) rs
      → All (Apart r) rs
      → All (Apart p) rs
  Apart-all r p f [] s a = tt
  Apart-all r p f (q ∷ rs) s a = (left-Apart r q p s.0 f a.0, Apart-all r p f rs s.1 a.1)

  modify-AllApart :
      Keeps → (rs : List Request) → All (IsSlot last) rs → AllApart rs → AllApart (modify test f rs)
  unfolding modify
  modify-AllApart k [] s a = tt
  modify-AllApart k (r ∷ rs) s a = elim (Bool-cases (test r)) [
    | inl e ↦ rw e (Apart-all r (f r) (k r e s.0) rs s.1 a.0, a.1)
    | inr e ↦ rw e (modify-Apart k r s.0 rs s.1 a.0, modify-AllApart k rs s.1 a.1)
  ]

-- A client whose pool is the modified one is valid again.
pub modify-IsValid :
    (c d : Client) (test : Request → Bool) (f : Request → Request)
    → IsValid c
    → c.last_msg_id ≤ d.last_msg_id
    → d.requests ≡ modify test f c.requests
    → ((r : Request)
        → test r ≡ true
        → IsSlot c.last_msg_id r
        → IsSafe c.last_msg_id d.last_msg_id r (f r))
    → IsValid d
modify-IsValid c d test f v h e k = record {
  slots = rw e (modify-slots h test f k c.requests v.slots);
  apart = rw e (modify-AllApart h test f k c.requests v.slots v.apart);
  counter = omega (arith, v.counter);
}
