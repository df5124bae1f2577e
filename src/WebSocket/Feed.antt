-- ===== src/WebSocket/Feed.antt =====
-- `vv_ws_parser_t` and its functions in src/server/ws.c.
use vibevoice_c.Common.{
  double_to, ℕ, zero, suc, ◌+◌, ◌*◌, ◌^◌, Bool, true, false, Option, none, some, List, [], ◌∷◌,
  ◌++◌, not, ◌&&◌, leb, ◌==◌, if◌then◌else◌, drop, length, Status,
}
use vibevoice_c.WebSocket.Frame.{Limits, Assembly, Event, more, bad, whole, frame, close_too_big}

pub record Parser : Type 0 where
  pub limits : Limits
  -- The unparsed input, `in` up to `in_len`.
  pub input : List ℕ
  pub in_cap : ℕ
  pub assembly : Assembly
  pub msg_cap : ℕ
  pub close_code : ℕ
  pub failed : Bool

-- `vv_ws_parser_init`
unfoldable pub init : ℕ → Parser
init max_message = record {
  limits = record {
    max_message = if max_message == 0 then 16 * 2 ^ 20 else max_message;
    require_mask = true;
  };
  input = [];
  in_cap = 0;
  assembly = record { msg = []; opcode = 0 };
  msg_cap = 0;
  close_code = 0;
  failed = false;
}

-- The status that a failed parser answers.
abbrev pub failure : ℕ → Status
failure code = if code == close_too_big then Status.overflow else Status.parse

-- How the loop ends: it waits for input, with the bytes left over, or it stops with a status and the
-- buffer as it stands. `out_of_fuel` is no end that the code has.
pub data End : Type 0 where
  paused : Assembly → ℕ → List ℕ → End
  stopped : Status → ℕ → Bool → Assembly → ℕ → List ℕ → End
  out_of_fuel : End

-- Where the frame's copy into `msg` ends, with the zero behind a message that is whole: a message in
-- progress that ends with the frame is the frame's event, one that goes on is what `msg` holds. A frame
-- that copies nothing leaves what `msg` holds.
unfoldable pub copy_end : Assembly → Assembly → List Event → ℕ
copy_end a a' [] = length a'.msg
copy_end a a' ((op, payload) ∷ events) =
    if not (a.opcode == 0) && a'.opcode == 0 then length payload + 1 else length a'.msg

module _ (alloc : ℕ → Bool) where
  -- `grow`: the new capacity, unless the memory is refused.
  unfoldable pub grow : ℕ → ℕ → Option ℕ
  grow cap need =
      if leb need cap
      then some cap
      else (let c = double_to need (if cap == 0 then 4096 else cap) need in
          if alloc c then some c else none)

  -- A whole frame's demand on the capacity of `msg`.
  unfoldable pub demand : ℕ → Option ℕ → Option ℕ
  demand cap none = some cap
  demand cap (some need) = grow cap need

  -- The loop of `vv_ws_parser_feed`: `done` is the input up to `off`, `rest` what follows.
  unfoldable pub loop : ℕ → Limits → Assembly → ℕ → List ℕ → List ℕ → End × List Event
  loop zero l a cap done rest = (out_of_fuel, [])
  loop (suc f) l a cap done rest = elim (frame l a rest) [
    | more ↦ (paused a cap rest, [])
    | bad code bytes ↦ (stopped (failure code) code true a cap (done ++ bytes), [])
    | whole size bytes need a' events ↦ (elim (demand cap need) [
      | none ↦ (stopped Status.out_of_memory 0 false a cap (done ++ (bytes ++ drop size rest)), [])
      | some cap' ↦
          (let (e, more_events) = loop f l a' cap' (done ++ bytes) (drop size rest) in
            (e, events ++ more_events))
    ])
  ]

  -- For each frame that the loop takes, the end of its copy into `msg`, or of what is there if it copies
  -- nothing, and the capacity then.
  unfoldable pub copies : ℕ → Limits → Assembly → ℕ → List ℕ → List (ℕ × ℕ)
  copies zero l a cap rest = []
  copies (suc f) l a cap rest = elim (frame l a rest) [
    | more ↦ []
    | bad code bytes ↦ []
    | whole size bytes need a' events ↦ (elim (demand cap need) [
      | none ↦ []
      | some cap' ↦ (copy_end a a' events, cap') ∷ copies f l a' cap' (drop size rest)
    ])
  ]

  -- What a parser is after its loop, and the status of the call.
  unfoldable pub settle : Parser → End → Status × Parser
  settle p (paused a cap rest) = (Status.ok, record p { assembly = a; msg_cap = cap; input = rest })
  settle p (stopped s code failed a cap buffer) = (
    s,
    record p {
      assembly = a;
      msg_cap = cap;
      input = buffer;
      close_code = if failed then code else p.close_code;
      failed = failed;
    },
  )
  settle p out_of_fuel = (Status.ok, p)

  -- `vv_ws_parser_feed` behind its guards, with the capacity that `in` has then; each round takes two
  -- bytes at least, so the length of the input and one more rounds are enough.
  unfoldable pub take_in : Parser → List ℕ → Option ℕ → (Status × Parser) × List Event
  unfolding loop settle
  take_in p bytes none = ((Status.out_of_memory, p), [])
  take_in p bytes (some cap) =
      let input = p.input ++ bytes in
      let (e, events) = loop (suc (length input)) p.limits p.assembly p.msg_cap [] input in
      (settle (record p { in_cap = cap; input = input }) e, events)

  -- `vv_ws_parser_feed` on bytes that are there.
  unfoldable pub feed : Parser → List ℕ → (Status × Parser) × List Event
  unfolding take_in
  feed p bytes =
      if p.failed
      then ((failure p.close_code, p), [])
      else take_in p bytes (
          if length bytes == 0
          then some p.in_cap
          else grow p.in_cap (length p.input + length bytes))

  -- The copies of a call: the one of the bytes into `in`, and those of the loop into `msg`.
  unfoldable pub feed_copies : Parser → List ℕ → List (ℕ × ℕ)
  unfolding copies
  feed_copies p bytes =
      let room =
        if length bytes == 0
        then some p.in_cap
        else grow p.in_cap (length p.input + length bytes) in
      let input = p.input ++ bytes in
      if p.failed then [] else elim room [
        | none ↦ []
        | some cap ↦
            (length input, cap) ∷ copies (suc (length input)) p.limits p.assembly p.msg_cap input
      ]
