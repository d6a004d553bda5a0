-- ===== src/Client/Delivery/Choice.antt =====
-- cms/nicofclt.c: the request that ncf_031 settles on.
use nicof.Prelude.{ℕ, Bool-cases, inl, inr, ◌≡◌, ◌≢◌, refl, ◌&&◌, some, List, [], ◌∷◌, arith, ◌==◌}
use nicof.Client.{Request, Client, rc_ok, mid_rcvd, first}
use nicof.Client.Wait.{Arrival, wait_for_any, wait_any_loop, pick, is_outstanding}

outstanding :
    (tag : ℕ) (rs : List Request) (q : Request)
    → first (λ r. r.msg_id == mid_rcvd && r.filter_tag == tag) rs ≡ some q
    → (p : Request) × (first is_outstanding rs ≡ some p)
unfolding first
outstanding tag [] q e = absurd (ground arith)
outstanding tag (r ∷ rs) q e = elim (Bool-cases (is_outstanding r)) [
  | inl t ↦ (r, ground arith)
  | inr t ↦ let (p, there) = outstanding tag rs q (ground arith) in (p, ground arith)
]

filtered :
    (tag : ℕ) (rs : List Request)
    → tag ≢ 0
    → pick tag rs ≡ first (λ r. r.msg_id == mid_rcvd && r.filter_tag == tag) rs
unfolding pick first
filtered tag [] n = refl
filtered tag (r ∷ rs) n = ground arith

-- With a filter set, ncf_031 returns at once with the first request that has its response and the
-- filter's tag, if there is one when it is called.
pub wait_for_any_filtered :
    (arrivals : List Arrival) (c : Client) (q : Request)
    → c.response_filter ≢ 0
    → first (λ r. r.msg_id == mid_rcvd && r.filter_tag == c.response_filter) c.requests ≡ some q
    → wait_for_any arrivals c ≡ some (c, q.me, rc_ok, arrivals)
unfolding wait_for_any wait_any_loop pick
wait_for_any_filtered arrivals c q f o =
    ground (arith, outstanding _ c.requests q o, filtered c.response_filter c.requests f)
