-- ===== src/Paxos/Coordinator.antt =====
-- contrib/libpaxos/coordinator.go: proposing values, instance by instance.
pub mod Numbers
pub mod Fresh
pub mod Choice
use airline_booking.Prelude.{
  ℕ, zero, suc, ◌+◌, ◌-◌, ◌*◌, ◌/◌, ◌%◌, ◌≤◌, ◌<◌, ◌≡◌, refl, sym, ap, subst, ◌∙◌, ◌≢◌, ◌↔◌, ◌⊎◌,
  inl, inr, Bool, true, false, not, ◌&&◌, ◌||◌, Option, none, some, List, [], ◌∷◌, ◌++◌, map, arith,
  ltb, leb, nat_beq, if◌then◌else◌, ltb→lt, leb→le, nat_beq_iff, Eq, ◌==◌, nat_eq, Bool-cases,
  Option-cases, beq_self, beq_ne, length, get_elem?, length-append, All, All-append, Any,
  Any-append_left, Any-append_right, elem, Distinct, Text, codes, text_beq, text_beq_iff, text_eq,
}
use airline_booking.Prelude.Assoc.{
  Assoc, lookup, insert, delete, lookup-insert, lookup-delete, length-insert_new, elem-missing,
}
use airline_booking.Paxos.Types.{
  MsgType, nop, prepare, prepare_ok, prepare_reject, accept, propose, learn, Msg, Packet, msg,
}

pub record CoordinatorProtocol : Type 0 where
  pub pvalue : Text
  pub aproposal : ℕ
  pub avalue : Text
  pub nvalue : Text
  pub responses : Assoc Text Bool
  pub proposal : ℕ

abbrev pub init_protocol : CoordinatorProtocol
init_protocol = record {
  pvalue = [];
  aproposal = 0;
  avalue = [];
  nvalue = [];
  responses = [];
  proposal = 0;
}

pub record Coordinator : Type 0 where
  pub nodepos : ℕ
  pub nodes : ℕ
  pub quorum : ℕ
  pub proto : Assoc ℕ CoordinatorProtocol
  pub highest_instance : ℕ
  pub nextproposal : ℕ
  pub highproposal : ℕ

-- &Coordinator{nodepos, nodes, quorum} and its init().
abbrev pub init : ℕ → ℕ → ℕ → Coordinator
init nodepos nodes quorum = record {
  nodepos = nodepos;
  nodes = nodes;
  quorum = quorum;
  proto = [];
  highest_instance = 0;
  nextproposal = nodepos;
  highproposal = 0;
}

-- `for c.nextproposal < c.highproposal { c.nextproposal += c.nodes }`; `none` is a loop that does
-- not end within the fuel.
unfoldable pub raise : ℕ → ℕ → ℕ → ℕ → Option ℕ
raise zero nodes high next = none
raise (suc fuel) nodes high next =
    let rest = raise fuel nodes high (next + nodes) in if ltb next high then rest else some next

-- Every round adds at least one where there are nodes, so `highproposal + 1` rounds are enough.
unfoldable pub new_proposal_number : Coordinator → Option (ℕ × Coordinator)
new_proposal_number c =
    elim (raise (suc c.highproposal) c.nodes c.highproposal (c.nextproposal + c.nodes)) [
      | none ↦ none
      | some next ↦ some (c.nextproposal, record c { nextproposal = next })
    ]

unfoldable pub new_instance_number : Coordinator → ℕ × Coordinator
new_instance_number c =
    (c.highest_instance + 1, record c { highest_instance = c.highest_instance + 1 })

-- PROPOSE: a new entry under a new instance number, which replaces an entry that is there.
unfoldable pub start : Text → ℕ × Coordinator → Coordinator × Option Msg
unfolding new_instance_number
start v (n, c) =
    let (i, c') = new_instance_number c in
    let cp = record init_protocol { pvalue = v; proposal = n } in
    (record c' { proto = insert i cp c'.proto }, some (msg prepare n [] i))

-- The highest accepted proposal that the replies of acceptors name, and its value.
unfoldable pub hear : Msg → CoordinatorProtocol → CoordinatorProtocol
hear m e =
    if ltb e.aproposal m.proposal then record e { aproposal = m.proposal; avalue = m.value } else e

-- Only the first response of a replica is recorded.
unfoldable pub record_response : Text → Assoc Text Bool → Assoc Text Bool
record_response from m = elim (lookup from m) [ some _ ↦ m | none ↦ insert from true m ]

unfoldable pub note_response : Text → CoordinatorProtocol → CoordinatorProtocol
note_response from e = record e { responses = record_response from e.responses }

abbrev pub next_value : CoordinatorProtocol → Text
next_value e = if ltb 0 e.aproposal then e.avalue else e.pvalue

-- With a quorum of responses the value is chosen and sent.
unfoldable pub decide : ℕ → ℕ → CoordinatorProtocol → CoordinatorProtocol × Option Msg
decide quorum i e =
    if leb quorum (length e.responses)
    then (record e { nvalue = next_value e }, some (msg accept e.proposal (next_value e) i))
    else (e, none)

-- PREPARE_OK for an instance that was proposed here; only the first quorum sends a message.
unfoldable pub prepared : ℕ → Msg → Text → CoordinatorProtocol → CoordinatorProtocol × Option Msg
unfolding hear note_response decide
prepared quorum m from e =
    if e.nvalue == [] then decide quorum m.slot (note_response from (hear m e)) else (e, none)

unfoldable pub on_prepare_ok : Coordinator → Msg → Text → Coordinator × Option Msg
unfolding prepared
on_prepare_ok c m from = elim (lookup m.slot c.proto) [
  | none ↦ (c, none)
  | some e ↦
      let (e', out) = prepared c.quorum m from e in
      (record c { proto = insert m.slot e' c.proto }, out)
]

unfoldable pub dispatch : MsgType → Coordinator → Msg → Text → Option (Coordinator × Option Msg)
unfolding new_proposal_number start on_prepare_ok
dispatch propose c m from = elim (new_proposal_number c) [
  | none ↦ none
  | some r ↦ some (start m.value r)
]
dispatch learn c m from = some (c, some (msg nop 0 [] m.slot))
dispatch prepare_ok c m from = some (on_prepare_ok c m from)
dispatch prepare_reject c m from = some (record c { highproposal = m.proposal }, none)
dispatch _ c m from = some (c, none)

unfoldable pub operate : Coordinator → Packet → Option (Coordinator × Option Msg)
operate c p = dispatch p.packet_msg.msg_type c p.packet_msg p.packet_from

-- The coordinator after a sequence of packets, and the messages that it sends on the way.
unfoldable pub collect :
    Option Msg → Option (Coordinator × List Msg) → Option (Coordinator × List Msg)
collect out none = none
collect none (some r) = some r
collect (some m) (some (c, ms)) = some (c, m ∷ ms)

unfoldable pub run : Coordinator → List Packet → Option (Coordinator × List Msg)
unfolding collect
run c [] = some (c, [])
run c (p ∷ ps) = elim (operate c p) [ none ↦ none | some (c', out) ↦ collect out (run c' ps) ]

-- The proposal numbers of the PREPAREs among the messages.
unfoldable pub issued : MsgType → ℕ → List ℕ → List ℕ
issued prepare n ns = n ∷ ns
issued _ n ns = ns

unfoldable pub prepare_numbers : List Msg → List ℕ
unfolding issued
prepare_numbers [] = []
prepare_numbers (m ∷ ms) = issued m.msg_type m.proposal (prepare_numbers ms)
