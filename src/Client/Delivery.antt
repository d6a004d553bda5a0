-- ===== src/Client/Delivery.antt =====
-- cms/nicofclt.c: which request a response reaches, and what the client then reads.
pub mod Waiting
pub mod Exchange
pub mod Choice
pub mod Taking
pub mod Await
pub mod Bytes
use nicof.Prelude.{
  ℕ, ◌≤◌, ◌<◌, ◌≡◌, ◌∙◌, refl, sym, ap, ◌≢◌, ◌⊎◌, inl, inr, Bool, true, false, ◌&&◌, ◌||◌, Option,
  none, some, List, [], ◌∷◌, All, arith, ◌==◌, if◌then◌else◌, Bool-cases, Option-cases, overwrite,
}
use nicof.Client.{Request, Client, mid_pend, mid_rcvd, first, modify, find}
use nicof.Client.Wait.{Vmcmhdr, Arrival, respond, handle_ext, arrive, vmcf_interrupt, vmcpsenr}
use nicof.Client.Validity.{Apart, AllApart, IsValid}
use nicof.Client.Phases.{respond_facts}
use nicof.Client.Phases.Find.{
  KeepsMe, find-modify_self, find-modify_ne, find-All, modify-modify, first-modify,
}

abbrev pub has_mid : ℕ → Request → Bool
has_mid m r = r.msg_id == m

-- A message number leads to one request only.
pub first-message :
    (h : ℕ) (rs : List Request) (r : Request)
    → AllApart rs
    → find h rs ≡ some r
    → mid_pend < r.msg_id
    → first (has_mid r.msg_id) rs ≡ some r
unfolding first
first-message h [] r a e p = absurd (ground arith)
first-message h (x ∷ rs) r a e p = elim (Bool-cases (x.me == h)) [
  | inl t ↦ let same : x ≡ r = ground arith in ground arith
  | inr t ↦
      let later : find h rs ≡ some r = ground arith in
      ground
        (arith, (find-All (Apart x) _ rs r later a.0).0.messages, first-message h rs r a.1 later p)
]

pub modify-message :
    (h : ℕ) (f : Request → Request) (rs : List Request) (r : Request)
    → AllApart rs
    → find h rs ≡ some r
    → mid_pend < r.msg_id
    → modify (has_mid r.msg_id) f rs ≡ modify (λ q. q.me == h) f rs
unfolding first modify
modify-message h f [] r a e p = refl
modify-message h f (x ∷ rs) r a e p = elim (Bool-cases (x.me == h)) [
  | inl t ↦ let same : x ≡ r = ground arith in ground arith
  | inr t ↦
      let later : find h rs ≡ some r = ground arith in
      ground (
        arith,
        (find-All (Apart x) _ rs r later a.0).0.messages,
        modify-message h f rs r a.1 later p,
      )
]

modify-none :
    (test : Request → Bool) (f : Request → Request) (rs : List Request)
    → first test rs ≡ none
    → modify test f rs ≡ rs
unfolding first modify
modify-none test f [] e = refl
modify-none test f (x ∷ rs) e = ground (arith, modify-none test f rs)

-- The interrupt that CP raises for the answer to message `m`.
pub record IsAnswer (m : ℕ) (a : Arrival) : Type 0 where
  pub code : a.header.intr_code ≡ vmcf_interrupt
  pub func : a.header.func ≡ vmcpsenr
  pub mid : a.header.mid ≡ m

abbrev pub stored_in : Arrival → Request → Request
stored_in a r = record r { buf = overwrite a.stored r.buf }

-- What the arrival makes of the request that waits for it.
abbrev pub answered : Arrival → Request → Request
answered a r = respond a.header (stored_in a r)

abbrev pub after_answer : ℕ → Request → Arrival → Client → Client
after_answer h r a c = record c {
  requests = modify (λ q. q.me == h) (answered a) c.requests;
  posted = c.posted || (c.response_filter == 0 || r.filter_tag == c.response_filter);
}

handle_ext-found :
    (m : Vmcmhdr) (c : Client) (q : Request)
    → m.intr_code ≡ vmcf_interrupt
    → m.func ≡ vmcpsenr
    → first (has_mid m.mid) c.requests ≡ some q
    → handle_ext m c ≡ record c {
      requests = modify (has_mid m.mid) (respond m) c.requests;
      posted = c.posted || (c.response_filter == 0 || q.filter_tag == c.response_filter);
    }
unfolding handle_ext
handle_ext-found m c q i j e = ground arith

-- The response to a message changes the request that sent it, and no other.
pub arrive-answer :
    (h : ℕ) (r : Request) (c : Client) (a : Arrival)
    → IsValid c
    → find h c.requests ≡ some r
    → mid_pend < r.msg_id
    → IsAnswer r.msg_id a
    → arrive a c ≡ after_answer h r a c
unfolding arrive
arrive-answer h r c a v e p ans =
    handle_ext-found a.header _ (stored_in a r) ans.code ans.func there ∙ ap after pool
  where
    after : List Request → Client
    after rs = record c {
      requests = rs;
      posted = c.posted || (c.response_filter == 0 || r.filter_tag == c.response_filter);
    }

    there :
        first (has_mid a.header.mid) (modify (has_mid a.header.mid) (stored_in a) c.requests)
        ≡ some (stored_in a r)
    there =
        first-modify _ (stored_in a) (stored_in a) (λ q. refl) c.requests r
          (rw ans.mid (first-message h c.requests r v.apart e p))

    pool :
        modify
          (has_mid a.header.mid)
          (respond a.header)
          (modify (has_mid a.header.mid) (stored_in a) c.requests)
        ≡ modify (λ q. q.me == h) (answered a) c.requests
    pool =
        modify-modify (has_mid a.header.mid) (respond a.header) (stored_in a) (λ q. refl) c.requests
        ∙ rw ans.mid (modify-message h (answered a) c.requests r v.apart e p)

pub answered-me : (a : Arrival) → KeepsMe (answered a)
answered-me a q = (respond_facts a.header (stored_in a q)).0

-- In a valid client the response to the message that a request waits for reaches that request, and
-- leaves every other request as it was.
pub find-arrive :
    (h g : ℕ) (r : Request) (c : Client) (a : Arrival)
    → IsValid c
    → find h c.requests ≡ some r
    → mid_pend < r.msg_id
    → IsAnswer r.msg_id a
    → find g (arrive a c).requests ≡ (if g == h then some (answered a r) else find g c.requests)
find-arrive h g r c a v e p ans = rw (arrive-answer h r c a v e p ans) (elim (Bool-cases (g == h)) [
  | inl t ↦
      let same : g ≡ h = ground arith in
      rw (t, same) (find-modify_self h (answered a) c.requests r (answered-me a) e)
  | inr t ↦
      let apart : h ≢ g = ground arith in
      rw t (find-modify_ne h g (answered a) c.requests (answered-me a) apart)
])

handle_ext_stray :
    (m : Vmcmhdr) (c : Client) → first (has_mid m.mid) c.requests ≡ none → handle_ext m c ≡ c
unfolding handle_ext
handle_ext_stray m c e = elim (Bool-cases (m.intr_code == vmcf_interrupt && m.func == vmcpsenr)) [
  | inl t ↦ rw t (rw (e, handle_ext) refl)
  | inr t ↦ rw t
]

-- An interrupt for a message that no request waits for changes nothing.
pub arrive_stray :
    (c : Client) (a : Arrival) → first (has_mid a.header.mid) c.requests ≡ none → arrive a c ≡ c
unfolding arrive
arrive_stray c a e =
    handle_ext_stray a.header _ (rw same e) ∙ ap (λ rs. record c { requests = rs }) same
  where
    same : modify (has_mid a.header.mid) (stored_in a) c.requests ≡ c.requests
    same = modify-none _ (stored_in a) c.requests e
