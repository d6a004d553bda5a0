-- ===== src/Client/History.antt =====
-- cms/nicofclt.c: whole histories of a client, from ncf_001 to ncf_002.
use nicof.Prelude.{ℕ, ◌≡◌, refl, false, List, [], ◌∷◌, All, arith, length, ◌≢◌, inl}
use nicof.Client.{Request, Client, max_packet_len, rc, vmcf, init, deinit, alloc_all, alloc_request}
use nicof.Client.Calls.{Call, step, run}
use nicof.Client.Validity.{IsValid}
use nicof.Client.Validity.Calls.{IsNewBlock, block-Apart, IsLegal, step-IsValid}

-- The static variables before the first call.
abbrev pub start : Client
start = record {
  initialized = false;
  requests = [];
  last_msg_id = 10;
  response_filter = 0;
  posted = false;
}

-- The blocks that `malloc` gives to ncf_001.
abbrev pub AreNewBlocks : List Request → Type 0
AreNewBlocks [] = Unit {0}
AreNewBlocks (b ∷ bs) =
    (length b.buf ≡ max_packet_len) × All (λ r. r.me ≢ b.me) bs × AreNewBlocks bs

alloc_request-IsValid :
    (b : Request) (c : Client) → IsNewBlock b c → IsValid c → IsValid (alloc_request b c)
unfolding alloc_request
alloc_request-IsValid b c new v = record {
  slots = (record { room = new.0; fits = omega arith; state = inl refl }, v.slots);
  apart = (block-Apart b c.requests new.1, v.apart);
  counter = v.counter;
}

alloc_all-IsValid :
    (bs : List Request) (c : Client)
    → AreNewBlocks bs
    → All (λ b. All (λ r. b.me ≢ r.me) c.requests) bs
    → IsValid c
    → IsValid (alloc_all bs c)
unfolding alloc_all alloc_request
alloc_all-IsValid [] c n a v = v
alloc_all-IsValid (b ∷ bs) c n a v =
    alloc_all-IsValid bs (alloc_request b c) n.2 (later bs n.1 a.1)
      (alloc_request-IsValid b c (n.0, a.0) v)
  where
    later :
        (ds : List Request)
        → All (λ r. r.me ≢ b.me) ds
        → All (λ d. All (λ r. d.me ≢ r.me) c.requests) ds
        → All (λ d. All (λ r. d.me ≢ r.me) (alloc_request b c).requests) ds
    later [] x y = tt
    later (d ∷ ds) x y = ((x.0, y.0), later ds x.1 y.1)

-- Each call is legal where it is made.
abbrev pub IsLegalRun : Client → List Call → Type 0
IsLegalRun c [] = Unit {0}
IsLegalRun c (a ∷ later) = IsLegal c a × IsLegalRun (step c a) later

run-IsValid :
    (c : Client) (calls : List Call) → IsValid c → IsLegalRun c calls → IsValid (run c calls)
unfolding run
run-IsValid c [] v l = v
run-IsValid c (a ∷ later) v l = run-IsValid (step c a) later (step-IsValid c a l.0 v) l.1

-- From the static variables' start values, after ncf_001 with new blocks of memory, every history
-- of legal calls and arrivals leaves a valid client.
pub init-run-IsValid :
    (blocks : List Request) (auth_rc : ℕ) (calls : List Call)
    → AreNewBlocks blocks
    → IsLegalRun (init blocks auth_rc start).0 calls
    → IsValid (run (init blocks auth_rc start).0 calls)
unfolding init
init-run-IsValid blocks auth_rc calls n l = run-IsValid _ calls ready l
  where
    none_yet : (ds : List Request) → All (λ d. All (λ r. d.me ≢ r.me) start.requests) ds
    none_yet [] = tt
    none_yet (d ∷ ds) = (tt, none_yet ds)

    made : IsValid (alloc_all blocks start)
    made =
        alloc_all-IsValid blocks start n (none_yet blocks)
          (record { slots = tt; apart = tt; counter = omega arith })

    ready : IsValid (init blocks auth_rc start).0
    ready = record { slots = made.slots; apart = made.apart; counter = made.counter }

-- After ncf_001 and ncf_002 no request is left, and the next ncf_001 is refused and changes
-- nothing.
pub init-deinit :
    (blocks more : List Request) (auth_rc auth_rc2 : ℕ) (c : Client)
    → let d = deinit (init blocks auth_rc c).0 in
      (d.requests ≡ []) × (init more auth_rc2 d ≡ (d, rc 0 vmcf))
unfolding init deinit
init-deinit blocks more auth_rc auth_rc2 c = ground arith
