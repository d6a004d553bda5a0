-- ===== src/HostFiles.antt =====
-- cms/svcnhfs.c: the client of the host file service, with what the clients of services share: the
-- base services they call, as an interface, and ncfbid2s of cms/ncfbases.c, which makes a stream.
pub mod Raw
pub mod Bulks
pub mod Paths
pub mod Returns
mod Tests
use nicof.Prelude.{
  ℕ, zero, suc, ◌+◌, ◌-◌, ◌^◌, ◌/◌, ◌%◌, Bool, true, false, not, ◌&&◌, Option, none, some, List, [],
  ◌∷◌, ◌++◌, take, length, ltb, ◌==◌, if◌then◌else◌,
}
use nicof.Prelude.Int.{ℤ, is_zero}
use nicof.Base.{Ask, Outcome}
use nicof.Base.Resolve.{Resolved}
use nicof.Client.Tables.{entry, e2a_tab}
use nicof.Stream.{Stream, open_stream}

-- The base services, over the state `S` of all that they reach; `none` waits for ever. The flag of
-- `invoke` tells that the caller wants the data of the response, as text.
pub record Services {ℓ} (S : Type ℓ) : Type ℓ where
  pub resolve : List ℕ → S → Option (S × Resolved)
  pub invoke : Ask → Bool → S → Option (S × Outcome)

-- The static variables of a service's client.
pub record ServiceClient : Type 0 where
  pub svc_id : ℤ
  pub is_initialized : Bool
  pub last_rc : ℤ

-- The state of the services, and `lineEndMode` where it is known.
pub record Remote {ℓ} (S : Type ℓ) : Type ℓ where
  pub world : S
  pub line_end_mode : Option ℕ

abbrev pub new_bulk_source : ℤ
new_bulk_source = ℤ.negsuc 31

abbrev pub new_bulk_sink : ℤ
new_bulk_sink = ℤ.negsuc 63

abbrev pub same_int : ℤ → ℤ → Bool
same_int (ℤ.pos m) (ℤ.pos n) = m == n
same_int (ℤ.pos m) (ℤ.negsuc n) = false
same_int (ℤ.negsuc m) (ℤ.pos n) = false
same_int (ℤ.negsuc m) (ℤ.negsuc n) = m == n

-- A `short` as the word it is extended to.
abbrev pub to_word : ℤ → ℕ
to_word (ℤ.pos n) = n
to_word (ℤ.negsuc n) = 2 ^ 32 - (n + 1)

-- A request with data as text (INDATA_TEXT).
abbrev pub text_ask : ℤ → (svc_cmd ctl_word : ℕ) → List ℕ → Ask
text_ask svc_id svc_cmd ctl_word text = record {
  svc_id = to_word svc_id;
  svc_cmd = svc_cmd;
  ctl_word = ctl_word;
  bytes = text;
  table = some (entry e2a_tab);
}

-- A request without data.
abbrev pub plain_ask : ℤ → (svc_cmd ctl_word : ℕ) → Ask
plain_ask svc_id svc_cmd ctl_word = record {
  svc_id = to_word svc_id;
  svc_cmd = svc_cmd;
  ctl_word = ctl_word;
  bytes = [];
  table = none;
}

abbrev pub nhfs_max_path_depth : ℕ
nhfs_max_path_depth = 10

abbrev pub blank : ℕ
blank = 0x40

-- The loop of `encodePath`, with a blank behind each element.
unfoldable pub path_elems : ℕ → List (List ℕ) → List ℕ
path_elems zero elems = []
path_elems (suc n) [] = []
path_elems (suc n) (s ∷ elems) = take 8 s ++ (blank ∷ path_elems n elems)

-- `if (b != buffer) { b--; }`: the last blank is cut off.
unfoldable pub without_last : List ℕ → List ℕ
without_last bytes = take (length bytes - 1) bytes

unfoldable pub encode_path : List (List ℕ) → List ℕ
encode_path elems = without_last (path_elems nhfs_max_path_depth elems)

-- The blank before the path, where there is one.
abbrev pub before_path : List (List ℕ) → List ℕ
before_path [] = []
before_path (s ∷ elems) = blank ∷ []

-- The data of a request for a file.
unfoldable pub file_text : (fn ft : List ℕ) → List (List ℕ) → List ℕ
file_text fn ft elems = fn ++ (blank ∷ (ft ++ (before_path elems ++ encode_path elems)))

-- The data of a request for a new directory.
unfoldable pub dir_text : List ℕ → List (List ℕ) → List ℕ
dir_text name elems = name ++ (before_path elems ++ encode_path elems)

abbrev pub ctl_or : ℕ → Option ℕ → ℕ
ctl_or garbage none = garbage
ctl_or garbage (some w) = w

module _ {ℓ} {S : Type ℓ} (services : Services S) where
  -- ncfbid2s; the line end mode is asked for with the first text stream. `garbage` is what the
  -- variable for the answer holds before.
  unfoldable pub bulk_stream :
      (id : ℕ) (source text : Bool) → Stream → ℕ → Remote S → Option (Remote S × Stream)
  bulk_stream id source text block garbage r = elim r.line_end_mode [
    | some mode ↦ some (r, open_stream id source text block)
    | none ↦ elim text [
      | false ↦ some (r, open_stream id source false block)
      | true ↦ elim (services.invoke (plain_ask (ℤ.pos 0) 1 0) false r.world) [
        | none ↦ none
        | some (w, out) ↦ some (
          record { world = w; line_end_mode = some ((ctl_or garbage out.ctl_word / 256) % 4) },
          open_stream id source true block,
        )
      ]
    ]
  ]

  -- A call that asks for a stream: its return code, and the stream where there is one.
  unfoldable pub stream_call :
      Ask → ℤ → (source text : Bool) → Stream → ℕ → Remote S → Option (Remote S × ℤ × Option Stream)
  stream_call ask new_bulk source text block garbage r = elim (services.invoke ask false r.world) [
    | none ↦ none
    | some (w, out) ↦ elim (same_int out.rc new_bulk) [
      | false ↦ some (record r { world = w }, out.rc, none)
      | true ↦
          elim (bulk_stream (ctl_or garbage out.ctl_word) source text block garbage
            (record r { world = w })) [
              | none ↦ none
              | some (t, stream) ↦ some (t, out.rc, some stream)
            ]
    ]
  ]

  -- Such a call of a client that keeps the return code.
  unfoldable pub client_stream :
      Ask
      → ℤ
      → (source text : Bool) → Stream
      → ℕ
      → ServiceClient
      → Remote S
      → Option (Remote S × ServiceClient × Option Stream)
  client_stream ask new_bulk source text block garbage c r =
      elim (stream_call ask new_bulk source text block garbage r) [
        | none ↦ none
        | some (t, rc, stream) ↦ some (t, record c { last_rc = rc }, stream)
      ]

  -- The body of nhfs_001 and of rnhfs011.
  unfoldable pub init_client :
      List ℕ → ServiceClient → Remote S → Option (Remote S × ServiceClient × Bool)
  init_client svc_name c r = elim c.is_initialized [
    | true ↦ some (r, c, true)
    | false ↦ elim (services.resolve svc_name r.world) [
      | none ↦ none
      | some (w, res) ↦
          let d = record c { svc_id = res.service_id; last_rc = res.rc } in
          if is_zero res.rc
          then some (record r { world = w }, record d { is_initialized = true }, true)
          else some (record r { world = w }, d, false)
    ]
  ]

  -- A call that has no stream, with the return code kept.
  unfoldable pub client_call :
      Ask → Bool → ServiceClient → Remote S → Option (Remote S × ServiceClient × Outcome)
  client_call ask wants_data c r = elim (services.invoke ask wants_data r.world) [
    | none ↦ none
    | some (w, out) ↦ some (record r { world = w }, record c { last_rc = out.rc }, out)
  ]

  -- nhfs_001: "HostFileSvc".
  abbrev pub hostfs_init : ServiceClient → Remote S → Option (Remote S × ServiceClient × Bool)
  hostfs_init =
      init_client (0xc8 ∷ 0x96 ∷ 0xa2 ∷ 0xa3 ∷ 0xc6 ∷ 0x89 ∷ 0x93 ∷ 0x85 ∷ 0xe2 ∷ 0xa5 ∷ 0x83 ∷ [])

  -- nhfs_002
  abbrev pub hostfs_list :
      List (List ℕ)
      → Stream
      → ℕ
      → ServiceClient
      → Remote S
      → Option (Remote S × ServiceClient × Option Stream)
  hostfs_list elems block garbage c r =
      client_stream (text_ask c.svc_id 1 0 (encode_path elems)) new_bulk_source true true block
        garbage c r

  -- nhfs_003
  abbrev pub hostfs_getfile :
      (fn ft : List ℕ)
      → List (List ℕ)
      → (text : Bool) → Stream
      → ℕ
      → ServiceClient
      → Remote S
      → Option (Remote S × ServiceClient × Option Stream)
  hostfs_getfile fn ft elems text block garbage c r =
      client_stream (text_ask c.svc_id 2 0 (file_text fn ft elems)) new_bulk_source true text block
        garbage c r

  -- nhfs_004
  abbrev pub hostfs_putfile :
      (fn ft : List ℕ)
      → (overwrite : Bool) → List (List ℕ)
      → (text : Bool) → Stream
      → ℕ
      → ServiceClient
      → Remote S
      → Option (Remote S × ServiceClient × Option Stream)
  hostfs_putfile fn ft overwrite elems text block garbage c r =
      client_stream (text_ask c.svc_id 3 (if overwrite then 1 else 0) (file_text fn ft elems))
        new_bulk_sink false text block garbage c r

  -- nhfs_005
  abbrev pub hostfs_mkdir :
      List ℕ
      → List (List ℕ)
      → ServiceClient
      → Remote S
      → Option (Remote S × ServiceClient × Outcome)
  hostfs_mkdir name elems c r = client_call (text_ask c.svc_id 4 0 (dir_text name elems)) false c r
