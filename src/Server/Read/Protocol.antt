-- ===== src/Server/Read/Protocol.antt =====
-- The protocol that a client speaks with `client_event_read`: requests, one after the other, and their
-- replies.
use ketamarouter.Base.{
  ℕ, Option, ◌<◌, subst, true, false, ◌≡◌, ◌≢◌, refl, sym, ap, ap₂, ◌∙◌, none, some, List, [], ◌∷◌,
  ◌++◌, Bytes, codes, length, take, take-length, All, arith, get_or, inl, inr,
}
use ketamarouter.Base.Int.{ℤ, pos}
use ketamarouter.Message.Ops.{msg_init, Msg, empty_msg}
use ketamarouter.Ketama.State.{Mcs, ServerInfo, Ketama}
use ketamarouter.Ketama.Servers.Holds.{no_server}
use ketamarouter.Ketama.Servers.{get_server_address}
use ketamarouter.Ketama.Continuum.Sorted.{Qsort, IsBuilt}
use ketamarouter.Ketama.Lookup.{get_server_ordinal}
use ketamarouter.Ketama.Route.{route_lem}
use ketamarouter.Decoder.{strchr}
use ketamarouter.Decoder.RoundTrip.Steps.{strchr-Lacks}
use ketamarouter.Response.Rows.{pong_rows}
use ketamarouter.Session.{faults, Session, Env, on_worker}
use ketamarouter.Command.{command_list_getl}
use ketamarouter.Command.Table.{
  TableOps, IsTable, command_list_load, command_list_load-getl, getl-get, cmd_get, cmd_ping, Named,
}
use ketamarouter.Server.Read.{handle_line, read_lines, first_msg, client_event_read}
use ketamarouter.Server.Read.Counts.{counts}
use ketamarouter.Server.Read.Route.{NoMsg, NoMsg-first}
use ketamarouter.Server.Read.Requests.{
  Request, get, ping, other, no_command, no_param, lines_of, IsRequest, reply, kind_of, ones,
  numbers, all_lines, replies,
}
use ketamarouter.Server.Read.Counted.{Counted, counted-Counted, Counted-none, Counted-trans}
use ketamarouter.Server.Read.Answers.{Answers}
use ketamarouter.Server.Read.Replies.{
  single-Answers, unknown-out, ping-out, NoCommand-Answers, NoParam-Answers, get-Answers,
}

read_lines-append :
    (env : Env) (lines more : List Bytes) (m : Msg) (s : Session)
    → read_lines env m (lines ++ more) s
      ≡ read_lines env (read_lines env m lines s).0 more (read_lines env m lines s).1
unfolding read_lines
read_lines-append env [] more m s = refl
read_lines-append env (line ∷ lines) more m s =
    let r = handle_line env m line s in read_lines-append env lines more r.0 r.1

first_msg-counts : (o : Option Msg) (s : Session) → counts (first_msg o s).1 ≡ counts s
unfolding first_msg on_worker
first_msg-counts none s = refl
first_msg-counts (some m) s = refl

pub first_msg-faults : (o : Option Msg) (s : Session) → faults (first_msg o s).1 ≡ faults s
unfolding first_msg on_worker msg_init
first_msg-faults none s = refl
first_msg-faults (some m) s = refl

module _ {T : Type 0} (ops : TableOps T) (laws : IsTable ops) (env : Env) (k : Ketama)
    (node : Bytes → Bytes) (list : env.find ≡ ops.lookup (command_list_load ops))
    (ring : env.ketama ≡ some k) (some_server : 0 < k.numservers)
    (owners : (key : Bytes)
      → (ordinal : ℤ) × (get_server_ordinal env.digest k key ≡ some ordinal)
        × (get_server_address k ordinal ≡ some (node key))) where
  abbrev Replies : Request → Type 0
  Replies r =
      (a : ℕ) (s : Session)
      → Answers env (kind_of r) (reply node r) s (read_lines env (empty_msg a) (lines_of r) s)

  not-Named : (name word : Bytes) → name ≢ word → ¬ Named ops laws name (length name) word
  not-Named name word n h = n (sym (take-length name) ∙ h.1)

  -- What the list of commands finds.
  getl :
      (text : Bytes) (len : ℕ)
      → command_list_getl env.find text len
        ≡ command_list_getl (ops.lookup (command_list_load ops)) text len
  getl text len = ap (λ f. command_list_getl f text len) list

  found_ping :
      (text : Bytes) (len : ℕ)
      → text ≡ codes "PING"
      → len ≡ 4
      → command_list_getl env.find text len ≡ some (cmd_ping ops laws)
  found_ping text len e n = elim (command_list_load-getl ops laws text len) [
    | inl (named, _) ↦ absurd (omega (arith, n, named.0))
    | inr (inl (_, found)) ↦ getl text len ∙ found
    | inr (inr (_, not_ping, _)) ↦ absurd (not_ping (n, ap₂ take n e))
  ]

  found_none :
      (name : Bytes) (text : Bytes) (len : ℕ)
      → text ≡ name
      → len ≡ length name
      → name ≢ codes "GET"
      → name ≢ codes "PING"
      → command_list_getl env.find text len ≡ none
  found_none name text len e n not_get not_ping =
      getl text len
      ∙ ap₂ (command_list_getl (ops.lookup (command_list_load ops))) e n
      ∙ elim (command_list_load-getl ops laws name (length name)) [
        | inl (named, _) ↦ absurd (not-Named name (codes "GET") not_get named)
        | inr (inl (named, _)) ↦ absurd (not-Named name (codes "PING") not_ping named)
        | inr (inr (_, _, found)) ↦ found
      ]

  ping-Replies : Replies ping
  unfolding read_lines strchr
  ping-Replies a s = single-Answers env true a b'P' (codes "ING") pong_rows s refl (λ c t text len.
      ping-out env c t (cmd_ping ops laws) (found_ping c.name.text c.name.len text len) refl)

  other-Replies : (name : Bytes) → IsRequest (other name) → Replies (other name)
  unfolding read_lines
  other-Replies [] h a s = absurd (h.1 refl)
  other-Replies (x ∷ xs) h a s =
      single-Answers env false a x xs _ s (strchr-Lacks b' ' (x ∷ xs) h.0) (λ c t text len.
        unknown-out env c t (found_none (x ∷ xs) c.name.text c.name.len text len h.2 h.3))

  request-Replies : (r : Request) → IsRequest r → Replies r
  unfolding read_lines
  request-Replies (get key) h a s =
      let (ordinal, owner, registered) = owners key in
      get-Answers env k (cmd_get ops laws) ordinal (node key) key ring some_server owner registered
        (getl (codes "GET 1") 3 ∙ getl-get ops laws (codes "GET 1") refl) refl a s
  request-Replies ping h a s = ping-Replies a s
  request-Replies (other name) h a s = other-Replies name h a s
  request-Replies (no_command line) h a s = NoCommand-Answers env a line s h
  request-Replies (no_param line) h a s = NoParam-Answers env a line s h

  -- Requests one after the other.
  requests-Replies :
      (requests : List Request) (a : ℕ) (s : Session)
      → All IsRequest requests
      → let r = read_lines env (empty_msg a) (all_lines requests) s in
        (a' : ℕ) × (r.0 ≡ empty_msg a')
        × (r.1.out ≡ replies env.write_ok node requests s.out)
        × Counted (numbers requests) (counts s) (counts r.1)
        × (faults r.1 ≡ faults s)
  unfolding read_lines
  requests-Replies [] a s h = (a, refl, refl, Counted-none (counts s), refl)
  requests-Replies (q ∷ requests) a s h =
      let (b, msg, out, count, safe) = request-Replies q h.0 a s in
      let r = read_lines env (empty_msg a) (lines_of q) s in
      let (b', msg', out', count', safe') = requests-Replies requests b r.1 h.1 in
      let split =
        read_lines-append env (lines_of q) (all_lines requests) (empty_msg a) s
        ∙ ap (λ m. read_lines env m (all_lines requests) r.1) msg in
      (
        b',
        ap (λ x. x.0) split ∙ msg',
        ap (λ x. x.1.out) split ∙ out' ∙ ap (replies env.write_ok node requests) out,
        let one =
              subst (Counted (ones (kind_of q)) (counts s)) (sym count)
                (counted-Counted (kind_of q) (counts s)) in
            let all =
              Counted-trans (ones (kind_of q)) (numbers requests) (counts s) (counts r.1) _ one
                count' in
            subst (λ x. Counted (numbers (q ∷ requests)) (counts s) (counts x.1)) (sym split) all,
        ap (λ x. faults x.1) split ∙ safe' ∙ safe,
      )

pub client_event_read-replies :
    {T : Type 0} (ops : TableOps T) (share : ℕ → ℕ → ℕ → ℕ) (q : Qsort) (env : Env)
    (infos : List ServerInfo) (k : Ketama) (cells : List Mcs) (requests : List Request)
    (s : Session)
    → IsTable ops
    → env.find ≡ ops.lookup (command_list_load ops)
    → env.ketama ≡ some k
    → IsBuilt env.digest share q infos k cells
    → 0 < length cells
    → NoMsg s.msg
    → All IsRequest requests
    → (owner : Bytes → ℕ) × ((key : Bytes)
        → (owner key < length infos)
          × (get_server_ordinal env.digest k key ≡ some (pos (owner key))))
      × (let t = client_event_read env (all_lines requests) s in
          NoMsg t.msg
          × (t.out
              ≡ replies env.write_ok
                  (λ key. (get_or infos (owner key) no_server).addr)
                  requests
                  s.out)
          × Counted (numbers requests) (counts s) (counts t)
          × (faults t ≡ faults s))
unfolding client_event_read
client_event_read-replies ops share q env infos k cells requests s laws list ring built some_cell
      idle valid =
    let route = λ (key : Bytes). route_lem env.digest share q infos k cells key built some_cell in
    let owner = λ (key : Bytes). (route key).0 in
    let node = λ (key : Bytes). (get_or infos (owner key) no_server).addr in
    let some_server : 0 < k.numservers = omega (arith, built.holds.counted, (route []).1) in
    let (a, (first, out)) = NoMsg-first s.msg s idle in
    let (b, msg, out', count, safe) =
      requests-Replies ops laws env k node list ring some_server
        (λ key. (pos (owner key), (route key).2, (route key).3)) requests a (first_msg s.msg s).1
        valid in
    let lines = all_lines requests in
    let start = ap (λ m. read_lines env m lines (first_msg s.msg s).1) first in
    let empty = ap (λ r. r.0) start ∙ msg in
    (
      owner,
      λ key. ((route key).1, (route key).2),
      (
        empty ∙ sym (ap (λ m. empty_msg m.addr) empty),
        ap (λ r. r.1.out) start ∙ out' ∙ ap (replies env.write_ok node requests) out,
        subst (Counted (numbers requests) (counts s)) (ap (λ r. counts r.1) (sym start)) (
            subst
              (λ c.
                Counted (numbers requests) c
                  (counts (read_lines env (empty_msg a) lines (first_msg s.msg s).1).1))
              (first_msg-counts s.msg s) count),
        ap (λ r. faults r.1) start ∙ safe ∙ first_msg-faults s.msg s,
      ),
    )
