-- ===== src/Ebpf/Layout.antt =====
-- pkg/ebpf/tracer.go: events laid out without padding, and `parseRawEvent` of them.
use a.Prelude.{
  ℕ, zero, suc, ◌+◌, ◌/◌, ◌%◌, ◌^◌, ◌<◌, ◌≡◌, refl, sym, ap, arith, none, some, [], ◌∷◌, ◌++◌, ltb,
  if◌then◌else◌, length, length-append, take-append, drop-append,
}
use a.Golang.Slice.{Bytes}
use a.Model.Event.{RawTraceEvent}
use a.Ebpf.Record.{little, read_uint, read_array, read_event, event_size, parse_raw_event}

-- A number in so many bytes, the lowest first.
unfoldable pub little_bytes : ℕ → ℕ → Bytes
little_bytes zero n = []
little_bytes (suc w) n = n % 256 ∷ little_bytes w (n / 256)

length-little_bytes : (w n : ℕ) → length (little_bytes w n) ≡ w
unfolding little_bytes
length-little_bytes zero n = refl
length-little_bytes (suc w) n = ap suc (length-little_bytes w (n / 256))

-- A number that has room in so many bytes.
abbrev Fits : ℕ → ℕ → Type 0
Fits zero n = n ≡ 0
Fits (suc w) n = Fits w (n / 256)

little-little_bytes : (w n : ℕ) (rest : Bytes) → Fits w n → little w (little_bytes w n ++ rest) ≡ n
unfolding little little_bytes
little-little_bytes zero n rest h = sym h
little-little_bytes (suc w) n rest h = omega (arith, little-little_bytes w (n / 256) rest h)

read_uint_lem :
    (w n : ℕ) (rest : Bytes) → Fits w n → read_uint w (little_bytes w n ++ rest) ≡ (n, rest)
unfolding read_uint
read_uint_lem w n rest h = cc (
  little-little_bytes w n rest h,
  drop-append (little_bytes w n) rest w (sym (length-little_bytes w n)),
)

read_array_lem : (n : ℕ) (bs rest : Bytes) → n ≡ length bs → read_array n (bs ++ rest) ≡ (bs, rest)
unfolding read_array
read_array_lem n bs rest h = cc (take-append bs rest n h, drop-append bs rest n h)

-- What the types of the fields say of an event.
pub record IsEvent (e : RawTraceEvent) : Type 0 where
  pub timestamp : e.timestamp < 2 ^ 64
  pub pid : e.pid < 2 ^ 32
  pub tid : e.tid < 2 ^ 32
  pub uid : e.uid < 2 ^ 32
  pub gid : e.gid < 2 ^ 32
  pub comm : length e.comm ≡ 16
  pub event_type : e.event_type < 2 ^ 8
  pub protocol : e.protocol < 2 ^ 8
  pub s_addr : e.s_addr < 2 ^ 32
  pub d_addr : e.d_addr < 2 ^ 32
  pub s_port : e.s_port < 2 ^ 16
  pub d_port : e.d_port < 2 ^ 16
  pub duration_ns : e.duration_ns < 2 ^ 64
  pub error_code : e.error_code < 2 ^ 32
  pub payload_size : e.payload_size < 2 ^ 32
  pub payload : length e.payload ≡ 1024
  pub trace_id : length e.trace_id ≡ 33
  pub span_id : length e.span_id ≡ 17
  pub parent_span_id : length e.parent_span_id ≡ 17
  pub path : length e.path ≡ 256

-- The fields behind the addresses, and all fields, in front of more bytes.
abbrev pub put_times : RawTraceEvent → Bytes → Bytes
put_times e rest =
    little_bytes 8 e.duration_ns
    ++ (little_bytes 4 e.error_code
        ++ (little_bytes 4 e.payload_size
            ++ (e.payload
                ++ (e.trace_id ++ (e.span_id ++ (e.parent_span_id ++ (e.path ++ rest)))))))

abbrev pub put_addresses : RawTraceEvent → Bytes → Bytes
put_addresses e rest =
    little_bytes 4 e.s_addr
    ++ (little_bytes 4 e.d_addr
        ++ (little_bytes 2 e.s_port ++ (little_bytes 2 e.d_port ++ put_times e rest)))

abbrev pub put_process : RawTraceEvent → Bytes → Bytes
put_process e rest =
    little_bytes 8 e.timestamp
    ++ (little_bytes 4 e.pid
        ++ (little_bytes 4 e.tid
            ++ (little_bytes 4 e.uid
                ++ (little_bytes 4 e.gid
                    ++ (e.comm
                        ++ (little_bytes 1 e.event_type ++ (little_bytes 1 e.protocol ++ rest)))))))

small8 : (n : ℕ) → n < 2 ^ 64 → Fits 8 n
small8 n h = omega (arith, h)

small4 : (n : ℕ) → n < 2 ^ 32 → Fits 4 n
small4 n h = omega (arith, h)

small2 : (n : ℕ) → n < 2 ^ 16 → Fits 2 n
small2 n h = omega (arith, h)

small1 : (n : ℕ) → n < 2 ^ 8 → Fits 1 n
small1 n h = omega (arith, h)

module _ (e : RawTraceEvent) (h : IsEvent e) where
  length-put_times : (rest : Bytes) → length (put_times e rest) ≡ 1363 + length rest
  length-put_times rest =
      let payload = h.payload in
      let trace_id = h.trace_id in
      let span_id = h.span_id in
      let parent_span_id = h.parent_span_id in
      let path = h.path in
      let r1 = e.path ++ rest in
      let r2 = e.parent_span_id ++ r1 in
      let r3 = e.span_id ++ r2 in
      let r4 = e.trace_id ++ r3 in
      let r5 = e.payload ++ r4 in
      let r6 = little_bytes 4 e.payload_size ++ r5 in
      let r7 = little_bytes 4 e.error_code ++ r6 in
      omega (
        arith,
        payload,
        trace_id,
        span_id,
        parent_span_id,
        path,
        length-append e.path rest,
        length-append e.parent_span_id r1,
        length-append e.span_id r2,
        length-append e.trace_id r3,
        length-append e.payload r4,
        length-append (little_bytes 4 e.payload_size) r5,
        length-append (little_bytes 4 e.error_code) r6,
        length-append (little_bytes 8 e.duration_ns) r7,
        length-little_bytes 4 e.payload_size,
        length-little_bytes 4 e.error_code,
        length-little_bytes 8 e.duration_ns,
      )

  pub length-put_process : (rest : Bytes) → length (put_process e rest) ≡ 42 + length rest
  length-put_process rest =
      let comm = h.comm in
      let r1 = little_bytes 1 e.protocol ++ rest in
      let r2 = little_bytes 1 e.event_type ++ r1 in
      let r3 = e.comm ++ r2 in
      let r4 = little_bytes 4 e.gid ++ r3 in
      let r5 = little_bytes 4 e.uid ++ r4 in
      let r6 = little_bytes 4 e.tid ++ r5 in
      let r7 = little_bytes 4 e.pid ++ r6 in
      omega (
        arith,
        comm,
        length-append (little_bytes 1 e.protocol) rest,
        length-append (little_bytes 1 e.event_type) r1,
        length-append e.comm r2,
        length-append (little_bytes 4 e.gid) r3,
        length-append (little_bytes 4 e.uid) r4,
        length-append (little_bytes 4 e.tid) r5,
        length-append (little_bytes 4 e.pid) r6,
        length-append (little_bytes 8 e.timestamp) r7,
        length-little_bytes 1 e.protocol,
        length-little_bytes 1 e.event_type,
        length-little_bytes 4 e.gid,
        length-little_bytes 4 e.uid,
        length-little_bytes 4 e.tid,
        length-little_bytes 4 e.pid,
        length-little_bytes 8 e.timestamp,
      )

  pub length-put_addresses : (rest : Bytes) → length (put_addresses e rest) ≡ 1375 + length rest
  length-put_addresses rest =
      let r1 = put_times e rest in
      let r2 = little_bytes 2 e.d_port ++ r1 in
      let r3 = little_bytes 2 e.s_port ++ r2 in
      let r4 = little_bytes 4 e.d_addr ++ r3 in
      omega (
        arith,
        length-put_times rest,
        length-append (little_bytes 2 e.d_port) r1,
        length-append (little_bytes 2 e.s_port) r2,
        length-append (little_bytes 4 e.d_addr) r3,
        length-append (little_bytes 4 e.s_addr) r4,
        length-little_bytes 2 e.d_port,
        length-little_bytes 2 e.s_port,
        length-little_bytes 4 e.d_addr,
        length-little_bytes 4 e.s_addr,
      )

  read_event-put : (rest : Bytes) → read_event (put_process e (put_addresses e rest)) ≡ e
  unfolding read_event
  read_event-put rest =
      rw
        (
          read_uint_lem 8 e.timestamp _ (small8 _ h.timestamp),
          read_uint_lem 4 e.pid _ (small4 _ h.pid),
          read_uint_lem 4 e.tid _ (small4 _ h.tid),
          read_uint_lem 4 e.uid _ (small4 _ h.uid),
          read_uint_lem 4 e.gid _ (small4 _ h.gid),
          read_array_lem 16 e.comm _ (sym h.comm),
          read_uint_lem 1 e.event_type _ (small1 _ h.event_type),
          read_uint_lem 1 e.protocol _ (small1 _ h.protocol),
          read_uint_lem 4 e.s_addr _ (small4 _ h.s_addr),
          read_uint_lem 4 e.d_addr _ (small4 _ h.d_addr),
          read_uint_lem 2 e.s_port _ (small2 _ h.s_port),
          read_uint_lem 2 e.d_port _ (small2 _ h.d_port),
          read_uint_lem 8 e.duration_ns _ (small8 _ h.duration_ns),
          read_uint_lem 4 e.error_code _ (small4 _ h.error_code),
          read_uint_lem 4 e.payload_size _ (small4 _ h.payload_size),
          read_array_lem 1024 e.payload _ (sym h.payload),
          read_array_lem 33 e.trace_id _ (sym h.trace_id),
          read_array_lem 17 e.span_id _ (sym h.span_id),
          read_array_lem 17 e.parent_span_id _ (sym h.parent_span_id),
          read_array_lem 256 e.path rest (sym h.path),
        )
        refl

  -- `parseRawEvent` reads an event whose fields stand one behind the other without padding, if at
  -- least seven bytes follow; with fewer, such as this event alone, it returns an error.
  pub parse_raw_event-put :
      (rest : Bytes)
      → parse_raw_event (put_process e (put_addresses e rest))
        ≡ (if ltb (length rest) 7 then none else some e)
  unfolding parse_raw_event
  parse_raw_event-put rest =
      let bs = put_process e (put_addresses e rest) in
      let size : length bs ≡ 1417 + length rest =
        omega (arith, length-put_process (put_addresses e rest), length-put_addresses rest) in
      let same : ltb (length bs) event_size ≡ ltb (length rest) 7 = ground (arith, size) in
      rw (same, read_event-put rest) refl

  -- The fields behind the process, of whatever bytes are there.
  abbrev pub ReadsBehind : Bytes → RawTraceEvent → Type 0
  ReadsBehind rest r =
      let behind = (read_uint 4 (read_uint 4 rest).1).1 in
      (r.timestamp ≡ e.timestamp)
      × (r.protocol ≡ e.protocol)
      × (r.s_addr ≡ (read_uint 4 rest).0)
      × (r.d_addr ≡ (read_uint 4 (read_uint 4 rest).1).0)
      × (r.s_port ≡ (read_uint 2 behind).0)
      × (r.d_port ≡ (read_uint 2 (read_uint 2 behind).1).0)

  pub read_event-process : (rest : Bytes) → ReadsBehind rest (read_event (put_process e rest))
  unfolding read_event
  read_event-process rest =
      rw
        (
          read_uint_lem 8 e.timestamp _ (small8 _ h.timestamp),
          read_uint_lem 4 e.pid _ (small4 _ h.pid),
          read_uint_lem 4 e.tid _ (small4 _ h.tid),
          read_uint_lem 4 e.uid _ (small4 _ h.uid),
          read_uint_lem 4 e.gid _ (small4 _ h.gid),
          read_array_lem 16 e.comm _ (sym h.comm),
          read_uint_lem 1 e.event_type _ (small1 _ h.event_type),
          read_uint_lem 1 e.protocol _ (small1 _ h.protocol),
        )
        (refl, refl, refl, refl, refl, refl)
