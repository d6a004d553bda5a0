-- ===== src/Sockets/Over.antt =====
-- The calls on sockets over the VMCF client of cms/nicofclt.c.
use nicof.Prelude.{
  ℕ, ◌++◌, Option, none, some, List, [], ◌∷◌, length, take, drop, map, ◌==◌, if◌then◌else◌,
}
use nicof.Prelude.Int.{ℤ}
use nicof.Client.{
  Request, Client, create_request, set_request_data, set_request_data_x, send_request,
  get_response_user_words, get_response_data, get_response_data_length, free_request, is_available,
  set_filter_tag, get_filter_tag,
}
use nicof.Client.Wait.{Arrival, wait_for_response}
use nicof.Client.TimedWait.{Events, wait_for_any_timed, wait_for_any_untimed}
use nicof.Client.Delivery.Taking.{wait_available}
use nicof.Sockets.Requests.{Requests}
use nicof.Sockets.Select.{no_timeout}
use nicof.Sockets.Nonblocking.{AvailableReturns}

-- What the calls reach: the client, what is to arrive, and for each wait with a timeout after how
-- many arrivals its timer ends, if it does.
pub record World : Type 0 where
  pub client : Client
  pub arrivals : List Arrival
  pub timers : List ℕ

-- What a wait with a timeout meets.
abbrev pub events_of : List Arrival → List ℕ → Events
events_of arrivals [] = map some arrivals
events_of arrivals (k ∷ timers) = map some (take k arrivals) ++ none ∷ map some (drop k arrivals)

abbrev pub arrivals_of : Events → List Arrival
arrivals_of [] = []
arrivals_of (none ∷ events) = arrivals_of events
arrivals_of (some a ∷ events) = a ∷ arrivals_of events

abbrev pub later : List ℕ → List ℕ
later [] = []
later (k ∷ timers) = timers

abbrev pub words_of : Option (ℕ × ℕ) → ℕ × ℕ
words_of none = (0, 0)
words_of (some words) = words

abbrev pub length_of : Option ℕ → ℕ
length_of none = 0
length_of (some n) = n

abbrev pub bytes_of : Option (List ℕ) → List ℕ
bytes_of none = []
bytes_of (some bytes) = bytes

abbrev pub after_await : List ℕ → Option (Client × ℤ × List Arrival) → Option (World × ℤ)
after_await timers none = none
after_await timers (some (d, code, rest)) =
    some (record { client = d; arrivals = rest; timers = timers }, code)

abbrev pub after_timed : List ℕ → Option (Client × ℕ × ℤ × Events) → Option (World × ℤ)
after_timed timers none = none
after_timed timers (some (d, h, code, events)) =
    some (record { client = d; arrivals = arrivals_of events; timers = timers }, code)

abbrev pub after_untimed : List ℕ → Option (Client × ℕ × ℤ × List Arrival) → Option (World × ℤ)
after_untimed timers none = none
after_untimed timers (some (d, h, code, rest)) =
    some (record { client = d; arrivals = rest; timers = timers }, code)

abbrev pub after_fill : World → Option (Client × ℤ) → World × ℤ × Unit {0}
after_fill w none = (w, ℤ.pos 0, tt)
after_fill w (some (d, code)) = (record w { client = d }, code, tt)

-- `block_of` gives the memory of a new request, `to_vm` is the proxy, and CP accepts each SEND/RECV. A
-- timer that is waited for alone ends.
unfoldable pub client_requests : (Client → Request) → ℕ → Requests World
client_requests block_of to_vm = record {
  create = λ w1 w2 w.
      let (d, h) = create_request w1 w2 (block_of w.client) w.client in
      (record w { client = d }, some h);
  fill = λ h bytes w.
      let (d, code) = set_request_data h (length bytes) bytes none w.client in
      (record w { client = d }, code, tt);
  fill_both = λ h first second w.
      after_fill w
        (set_request_data_x h (length first) first none (length second) second none w.client);
  send = λ h w.
      let (d, code, parm) = send_request h to_vm 0 w.client in (record w { client = d }, code, tt);
  await = λ h w. after_await w.timers (wait_for_response h w.arrivals w.client);
  words = λ h w.
      let (d, code, words) = get_response_user_words h w.client in
      (record w { client = d }, code, words_of words);
  data_length = λ h w.
      let (d, code, n) = get_response_data_length h w.client in
      (record w { client = d }, code, length_of n);
  bytes = λ h max from w.
      let (d, code, bytes) = get_response_data h max none from w.client in
      (record w { client = d }, code, bytes_of bytes);
  free = λ h w. record w { client = (free_request h w.client).0 };
  is_available = λ h w. is_available h w.client;
  set_filter_tag = λ h tag w. record w { client = set_filter_tag h tag w.client };
  get_filter_tag = λ h w. get_filter_tag h w.client;
  wait_for_any = λ tag timeout w.
      if timeout == no_timeout
      then after_untimed w.timers (wait_for_any_untimed tag w.arrivals w.client)
      else after_timed (later w.timers)
          (wait_for_any_timed tag (events_of w.arrivals w.timers) w.client);
  pause = λ timeout w. some w;
}

-- The wait for a response that the client has returns.
pub client_requests-AvailableReturns :
    (block_of : Client → Request) (to_vm : ℕ) → AvailableReturns (client_requests block_of to_vm)
unfolding client_requests
client_requests-AvailableReturns block_of to_vm h w e =
    let (d, code, returned) = wait_available h w.arrivals w.client e in rw returned (λ x. cc)
