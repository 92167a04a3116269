-- ===== src/Airline/Command.antt =====
-- contrib/airlineimpl/paxos.go: commands as strings, and how PaxosResponse takes them apart. JSON is a
-- string here, the encoded arguments of the command.
use airline_booking.Prelude.{
  ℕ, ◌-◌, ◌%◌, ◌<◌, ◌≡◌, refl, ap, subst, ◌∙◌, ◌≢◌, inl, inr, true, false, Option, none, some, List,
  [], ◌∷◌, ◌++◌, arith, ltb, nat_beq, if◌then◌else◌, ◌==◌, nat_eq, Option-cases, Text, codes,
  text_beq, text_beq_iff, text_eq,
}
use airline_booking.Prelude.Assoc.{lookup, delete, lookup-delete}
use airline_booking.Prelude.Strings.{
  split, itoa, numeral, itoa-Lacks, numeral-itoa, Lacks, split_from_piece, split_from,
  split_from_whole, occurs, is_prefix,
}
use airline_booking.Prelude.Words.{word, half}
use airline_booking.Airline.Types.{AirlineServer}

abbrev pub at_sign : Text
at_sign = codes "@"

-- "%s@CF@%s" with the operation in place of CF.
unfoldable pub paxos_cmd : Text → Text → Text → Text
paxos_cmd host op args = host ++ (at_sign ++ (op ++ (at_sign ++ args)))

-- What strconv.Atoi returns beside its error, as a 64-bit word: 0 for what is no numeral, and the
-- nearest int for one that is out of range.
unfoldable pub magnitude : Text → ℕ
magnitude [] = 0
magnitude (c ∷ s) = elim (numeral 0 (c ∷ s)) [ none ↦ 0 | some n ↦ n ]

unfoldable pub positive : ℕ → ℕ
positive n = if ltb n half then n else half - 1

unfoldable pub negative : ℕ → ℕ
negative n = if ltb n half then (word - n) % word else half

unfoldable pub atoi : Text → ℕ
unfolding magnitude positive negative
atoi [] = 0
atoi (c ∷ s) =
    if nat_beq c b'-'
    then negative (magnitude s)
    else if nat_beq c b'+'
    then positive (magnitude s)
    else positive (magnitude (c ∷ s))

pub record Command : Type 0 where
  pub cmd_no : ℕ
  pub hostport : Text
  pub op : Text
  pub args : Text

-- The indices 0 to 3; `none` is the panic of an index out of range.
unfoldable pub command_of : List Text → Option Command
unfolding atoi
command_of (number ∷ host ∷ op ∷ args ∷ more) =
    some (record { cmd_no = atoi number; hostport = host; op = op; args = args })
command_of _ = none

unfoldable pub parse_command : Text → Option Command
unfolding command_of
parse_command cmd = command_of (split cmd at_sign)

-- Where the result of a command goes: a command of another replica has no channel, one of this replica
-- has the channel of its number, which is then forgotten. `none`: the command is dropped.
unfoldable pub take_replyc : Command → AirlineServer → Option (Option ℕ × AirlineServer)
take_replyc cmd srv =
    if cmd.hostport == srv.myhostport
    then (elim (lookup cmd.cmd_no srv.old_replyc_map) [
      | none ↦ none
      | some replyc ↦
          some (some replyc, record srv { old_replyc_map = delete cmd.cmd_no srv.old_replyc_map })
    ])
    else some (none, srv)

atoi-itoa : (n : ℕ) → n < half → atoi (itoa n) ≡ n
unfolding atoi numeral magnitude positive
atoi-itoa n h =
    plain (itoa n) (itoa-Lacks b'-' n (inl (omega arith))) (itoa-Lacks b'+' n (inl (omega arith)))
      (numeral-itoa n)
  where
    plain : (s : Text) → Lacks b'-' s → Lacks b'+' s → numeral 0 s ≡ some n → atoi s ≡ n
    plain [] a b e = cc e
    plain (c ∷ s) a b e = elim (Option-cases (numeral 0 (c ∷ s))) [
      | inl bad ↦ cc (bad, e)
      | inr (m, good) ↦ ground (arith, a.0, b.0, e)
    ]

fields :
    (n : ℕ) (host op rest : Text)
    → Lacks b'@' host
    → Lacks b'@' op
    → split (itoa n ++ (at_sign ++ paxos_cmd host op rest)) at_sign
      ≡ itoa n ∷ host ∷ op ∷ split_from at_sign 0 [] rest
unfolding split paxos_cmd
fields n host op rest h o =
    split_from_piece b'@' [] [] (itoa n) (host ++ (at_sign ++ (op ++ (at_sign ++ rest))))
      (itoa-Lacks b'@' n (inr (omega arith)))
    ∙ ap (◌∷◌ (itoa n)) (
        split_from_piece b'@' [] [] host (op ++ (at_sign ++ rest)) h
        ∙ ap (◌∷◌ host) (split_from_piece b'@' [] [] op rest o))

Lacks-no_at : (s : Text) → Lacks b'@' s → occurs at_sign s ≡ false
unfolding occurs is_prefix
Lacks-no_at [] h = refl
Lacks-no_at (c ∷ s) h = ground (arith, h.0, Lacks-no_at s h.1)

-- A command whose host, operation and arguments hold no "@", and whose number is an int, comes back
-- from its string as it was.
pub command_roundtrip :
    (n : ℕ) (host op args : Text)
    → n < half
    → Lacks b'@' host
    → Lacks b'@' op
    → Lacks b'@' args
    → parse_command (itoa n ++ (at_sign ++ paxos_cmd host op args))
      ≡ some (record { cmd_no = n; hostport = host; op = op; args = args })
unfolding parse_command command_of
command_roundtrip n host op args small h o a =
    ap command_of (
      fields n host op args h o
      ∙ ap (λ r. itoa n ∷ host ∷ op ∷ r) (split_from_whole at_sign [] args (Lacks-no_at args a)))
    ∙ ap (λ k. some (record { cmd_no = k; hostport = host; op = op; args = args }))
        (atoi-itoa n small)

-- Arguments that hold an "@" arrive cut off before it: the JSON that is decoded is not the one sent.
pub arguments_truncated :
    (n : ℕ) (host op before after : Text)
    → n < half
    → Lacks b'@' host
    → Lacks b'@' op
    → Lacks b'@' before
    → parse_command (itoa n ++ (at_sign ++ paxos_cmd host op (before ++ (at_sign ++ after))))
      ≡ some (record { cmd_no = n; hostport = host; op = op; args = before })
unfolding parse_command command_of
arguments_truncated n host op before after small h o a =
    ap command_of (
      fields n host op (before ++ (at_sign ++ after)) h o
      ∙ ap (λ r. itoa n ∷ host ∷ op ∷ r) (split_from_piece b'@' [] [] before after a))
    ∙ ap (λ k. some (record { cmd_no = k; hostport = host; op = op; args = before }))
        (atoi-itoa n small)

-- A command of this replica gets its channel once: when it comes again it is dropped, and the channels
-- of the other commands stay.
pub replied_once :
    (cmd : Command) (srv srv' : AirlineServer) (replyc : ℕ)
    → cmd.hostport ≡ srv.myhostport
    → take_replyc cmd srv ≡ some (some replyc, srv')
    → (take_replyc cmd srv' ≡ none)
      × ((n : ℕ) → n ≢ cmd.cmd_no → lookup n srv'.old_replyc_map ≡ lookup n srv.old_replyc_map)
unfolding take_replyc
replied_once cmd srv srv' replyc own e =
    elim (Option-cases (lookup cmd.cmd_no srv.old_replyc_map)) [
      | inl gone ↦ absurd (never gone)
      | inr (c, there) ↦
          let srv2 : AirlineServer = record srv {
            old_replyc_map = delete cmd.cmd_no srv.old_replyc_map;
          } in
          let got : take_replyc cmd srv ≡ some (some c, srv2) = rw (mine, there) refl in
          let same : srv2 ≡ srv' = cc (e, got) in
          subst
            (λ s.
              (take_replyc cmd s ≡ none)
              × ((n : ℕ)
                  → n ≢ cmd.cmd_no
                  → lookup n s.old_replyc_map ≡ lookup n srv.old_replyc_map))
            same
            (
              (let forgotten : lookup cmd.cmd_no srv2.old_replyc_map ≡ none =
                    ground (arith, lookup-delete cmd.cmd_no cmd.cmd_no srv.old_replyc_map) in
                  rw (mine, forgotten) refl),
              λ n other. ground (arith, lookup-delete cmd.cmd_no n srv.old_replyc_map, other),
            )
    ]
  where
    mine : text_beq cmd.hostport srv.myhostport ≡ true
    mine = (text_beq_iff cmd.hostport srv.myhostport).1 own

    never : lookup cmd.cmd_no srv.old_replyc_map ≡ none → ⊥
    never gone = let lost : take_replyc cmd srv ≡ none = rw (mine, gone) refl in cc (e, lost)
