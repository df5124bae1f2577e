-- ===== src/Http/Exchange.antt =====
-- `read_request` of src/server/http.c as a whole: a request is received and parsed.
use vibevoice_c.Common.{
  ◌-◌, ◌∷◌, ◌^◌, ℕ, ◌≤◌, ◌≡◌, refl, Bool, true, Option, none, some, List, ◌++◌, length, take, drop,
  All, take-length_append,
}
use vibevoice_c.Http.Receive.{Call, Receiver, receive_all}
use vibevoice_c.Http.Arrival.{IsReady, receive_all_complete}
use vibevoice_c.Http.Request.{Header, Request, parse_head}
use vibevoice_c.Http.Search.{Lacks}
use vibevoice_c.Http.Measured.{head_of, first_line, length_header, IsOther, head_of-IsRequest}
use vibevoice_c.Http.Sent.{IsSendable, parse_head-head_text}

-- What was received, as a request and its body.
unfoldable pub parsed : Receiver → Option (Request × List ℕ)
parsed s = elim (parse_head (take s.head_end s.buf)) [
  | none ↦ none
  | some r ↦ some (r, drop s.head_end s.buf)
]

-- `read_request`
unfoldable pub read_request : (ℕ → Bool) → ℕ → List Call → List ℕ → Option (Request × List ℕ)
read_request alloc max_body ks coming = elim (receive_all alloc max_body ks coming) [
  | none ↦ none
  | some s ↦ parsed s
]

-- A request that a client sends is read as what it is, method, path, query, headers and body, however
-- many bytes each call of recv gives of it, if each gives one at least, in time, and there is memory.
-- The request has a method of at most 7 bytes, a target of at most 511 and at most 48 headers, with
-- names of 1 to 63 bytes and values of at most 511, none of which has a byte that ends it, or a
-- value a blank at its ends; its head has at most 64 KB; one header gives the length of the body in
-- decimal and no other speaks of a length; and the body has at most as many bytes as the server takes,
-- which are at most 2^30 - 2^20.
pub read_request-head_of :
    (alloc : ℕ → Bool) (max_body : ℕ) (r : Request) (front back : List Header) (body : List ℕ)
    (ks : List Call)
    → ((n : ℕ) → alloc n ≡ true)
    → IsSendable r
    → Lacks b'\n' (first_line r)
    → r.headers ≡ front ++ length_header (length body) ∷ back
    → All IsOther front
    → All IsOther back
    → length (head_of r) ≤ 2 ^ 16
    → length body ≤ max_body
    → max_body ≤ 2 ^ 30 - 2 ^ 20
    → All IsReady ks
    → length (head_of r ++ body) ≤ length ks
    → read_request alloc max_body ks (head_of r ++ body) ≡ some (r, body)
unfolding read_request parsed
read_request-head_of alloc max_body r front back body ks memory q f e o o' small fits limit a l =
    let h = head_of-IsRequest max_body r front back body q f e o o' small fits limit in
    let (s, run, b, z, d) = receive_all_complete alloc max_body (head_of r) body ks memory h a l in
    let cut : take s.head_end s.buf ≡ head_of r = rw (b, z) (take-length_append (head_of r) body) in
    rw (read_request, run, parsed, cut, parse_head-head_text r q, d) refl
