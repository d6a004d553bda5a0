-- ===== src/Client/Calls.antt =====
-- cms/nicofclt.c: a client's history as a list of calls and arrivals.
use nicof.Prelude.{
  ℕ, Option, some, List, [], ◌∷◌, ◌≡◌, ◌==◌, Bool-cases, Option-cases, inl, inr, ==_iff,
}
use nicof.Prelude.Int.{ℤ}
use nicof.Client.{
  Request, Client, with_request, find, create_request, set_request_data, send_request,
  set_filter_tag, get_response_user_words, get_response_data, free_request,
}
use nicof.Client.Wait.{Arrival, arrive}

pub data Call : Type 0 where
  creates : ℕ → ℕ → Request → Call
  fills : ℕ → ℕ → List ℕ → Option (ℕ → ℕ) → Call
  sends : ℕ → ℕ → ℕ → Call
  tags : ℕ → ℕ → Call
  arrives : Arrival → Call
  asks_words : ℕ → Call
  asks_data : ℕ → ℕ → Option (ℕ → ℕ) → ℕ → Call
  frees : ℕ → Call

unfoldable pub step : Client → Call → Client
step c (creates w1 w2 block) = (create_request w1 w2 block c).0
step c (fills h len bytes xtab) = (set_request_data h len bytes xtab c).0
step c (sends h to_vm send_rc) = (send_request h to_vm send_rc c).0
step c (tags h tag) = set_filter_tag h tag c
step c (arrives a) = arrive a c
step c (asks_words h) = (get_response_user_words h c).0
step c (asks_data h len xtab from) = (get_response_data h len xtab from c).0
step c (frees h) = (free_request h c).0

unfoldable pub run : Client → List Call → Client
unfolding step
run c [] = c
run c (a ∷ later) = run (step c a) later

-- The outcomes of a call that wants its request in state `s`.
pub with_request-cases {ℓ} :
    {A : Type 0} (P : A → Type ℓ) (h s what : ℕ) (c : Client) (fail : ℤ → A) (work : Request → A)
    → ((e : ℤ) → P (fail e))
    → ((r : Request) → find h c.requests ≡ some r → r.msg_id ≡ s → P (work r))
    → P (with_request h s what c fail work)
with_request-cases P h s what c fail work failed worked = elim (Option-cases (find h c.requests)) [
  | inl e ↦ rw (e, with_request) (failed _)
  | inr (r, e) ↦
      rw (e, with_request)
        (elim (Bool-cases (r.msg_id == s)) [
          | inl t ↦ rw t (worked r e ((==_iff r.msg_id s).0 t))
          | inr t ↦ rw t (failed _)
        ])
]
