-- ===== src/Command/Fallback.antt =====
-- internal/infrastructure/external/google_adk_command_parser.go: which answers of the remote service are of
-- no use, and what `Parse` does then.
use home_work_ad_processor_g.Prelude.{
  ◌≡◌, refl, ap, ◌∙◌, Bool, true, false, Option, none, some, List, [], ◌∷◌, String, if◌then◌else◌,
  ℤ, Result, ok, err, ◌⊎◌, inl, inr,
}
use home_work_ad_processor_g.Command.{Command, new_command}
use home_work_ad_processor_g.Command.Parser.{Unicode, to_lower, trim_space}
use home_work_ad_processor_g.Command.Phrases.{Wish, sentence, lower_case, command_for, Sensible}
use home_work_ad_processor_g.Command.Sentences.{parse-sentence}
use home_work_ad_processor_g.Command.RemoteParser.{
  ApiError, GoogleAdkResponse, ParsedCommand, Remote, RemoteError, api_error, invalid_command,
  parse_command_type, answered, command_read, first_candidate, parse_api_response, response_read,
  parse_with_google_adk, or_fallback, parse_remotely,
}

-- The six ways in which an answer is of no use.
pub data Useless (remote : Remote) : Option GoogleAdkResponse → Type 0 where
  unreached : Useless remote none
  refused : (r : GoogleAdkResponse) (e : ApiError) → r.error ≡ some e → Useless remote (some r)
  without_candidates : (r : GoogleAdkResponse) → r.candidates ≡ [] → Useless remote (some r)
  without_parts :
      (r : GoogleAdkResponse) (others : List (List String))
      → r.candidates ≡ [] ∷ others
      → Useless remote (some r)
  no_json :
      (r : GoogleAdkResponse) (part : String) (parts : List String) (others : List (List String))
      → r.candidates ≡ (part ∷ parts) ∷ others
      → remote.read_command part ≡ none
      → Useless remote (some r)
  not_valid :
      (r : GoogleAdkResponse) (part : String) (parts : List String) (others : List (List String))
      (p : ParsedCommand)
      → r.candidates ≡ (part ∷ parts) ∷ others
      → remote.read_command part ≡ some p
      → p.valid ≡ false
      → Useless remote (some r)

-- An answer without an error whose first text holds a valid command.
pub record Useful (remote : Remote) (answer : Option GoogleAdkResponse) (p : ParsedCommand)
    : Type 0 where
  pub response : GoogleAdkResponse
  pub part : String
  pub parts : List String
  pub others : List (List String)
  pub reached : answer ≡ some response
  pub no_error : response.error ≡ none
  pub first_text : response.candidates ≡ (part ∷ parts) ∷ others
  pub read : remote.read_command part ≡ some p
  pub is_valid : p.valid ≡ true

module _ (remote : Remote) (id : String) (now : ℤ) where
  -- The command that the remote service makes of a text.
  unfoldable pub command_of : String → ParsedCommand → Command
  unfolding new_command parse_command_type
  command_of original p =
      new_command id now original (parse_command_type p.kind) p.intent p.parameters

  -- What becomes of an answer.
  abbrev Decided : String → Option GoogleAdkResponse → Result RemoteError Command → Type 0
  Decided original answer out =
      (Useless remote answer × (e : RemoteError) × (out ≡ err e))
      ⊎ ((p : ParsedCommand) × Useful remote answer p × (out ≡ ok (command_of original p)))

  read-Decided :
      (original : String) (r : GoogleAdkResponse) (part : String) (parts : List String)
      (others : List (List String))
      → r.error ≡ none
      → r.candidates ≡ (part ∷ parts) ∷ others
      → (o : Option ParsedCommand) → remote.read_command part ≡ o
      → Decided original (some r) (command_read remote id now original o)
  unfolding command_of
  read-Decided original r part parts others e c none h =
      inl (Useless.no_json r part parts others c h, _, refl)
  read-Decided original r part parts others e c (some p) h = go p.valid refl
    where
      go :
          (b : Bool)
          → p.valid ≡ b
          → Decided original (some r) (
              if b
              then ok
                  (new_command id now original (parse_command_type p.kind) p.intent p.parameters)
              else err (invalid_command (elim p.refusal [ none ↦ "unknown error" | some x ↦ x ])))
      go false v = inl (Useless.not_valid r part parts others p c h v, _, refl)
      go true v = inr (
        p,
        record {
          response = r;
          part = part;
          parts = parts;
          others = others;
          reached = refl;
          no_error = e;
          first_text = c;
          read = h;
          is_valid = v;
        },
        refl,
      )

  candidates-Decided :
      (original : String) (r : GoogleAdkResponse)
      → r.error ≡ none
      → (l : List (List String)) → r.candidates ≡ l
      → Decided original (some r) (first_candidate remote id now original l)
  candidates-Decided original r e [] c = inl (Useless.without_candidates r c, _, refl)
  candidates-Decided original r e ([] ∷ others) c = inl (Useless.without_parts r others c, _, refl)
  candidates-Decided original r e ((part ∷ parts) ∷ others) c =
      read-Decided original r part parts others e c (remote.read_command part) refl

  answer-Decided :
      (original : String) (o : Option GoogleAdkResponse)
      → Decided original o (response_read remote id now original (answered o))
  unfolding parse_api_response
  answer-Decided original none = inl (Useless.unreached, _, refl)
  answer-Decided original (some r) = go r.error refl
    where
      go :
          (o : Option ApiError)
          → r.error ≡ o
          → Decided original (some r) (
              response_read remote id now original
                (elim o [ none ↦ ok r | some e ↦ err (api_error e.error_code e.message) ]))
      go (some e) h = inl (Useless.refused r e h, _, refl)
      go none h = candidates-Decided original r h r.candidates refl

  -- A text that, in lower case and without the space around it, is one of the seven sentences, with
  -- values that are sensible in lower case, is never refused, whatever the remote service answers. If
  -- its answer is of no use in one of the six ways, the text becomes the command for the sentence,
  -- with the game family in lower case, whatever case it was typed in; otherwise the answer holds a
  -- valid command, and the text becomes that command.
  pub parse_remotely-sentence :
      (unicode : Unicode) (original : String) (w : Wish)
      → Sensible unicode (lower_case unicode w)
      → trim_space unicode.is_space (to_lower unicode.lower original)
        ≡ sentence (lower_case unicode w)
      → (Useless remote (remote.ask original)
          × (let lowered = lower_case unicode w in
              parse_remotely remote id now unicode original
              ≡ ok (command_for id now (sentence lowered) lowered)))
        ⊎ ((p : ParsedCommand) × Useful remote (remote.ask original) p
            × (parse_remotely remote id now unicode original ≡ ok (command_of original p)))
  unfolding parse_remotely parse_with_google_adk
  parse_remotely-sentence unicode original w sensible h =
      elim (answer-Decided original (remote.ask original)) [
        | inl (useless, e, failed) ↦ inl (
          useless,
          ap (or_fallback remote id now unicode original) failed
              ∙ parse-sentence unicode id now original w sensible h,
        )
        | inr (p, useful, made) ↦
            inr (p, useful, ap (or_fallback remote id now unicode original) made)
      ]
