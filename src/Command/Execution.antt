-- ===== src/Command/Execution.antt =====
-- internal/application/service/command_service.go, `ExecuteCommand`: how commands end, and that the
-- response and the audit trail agree.
use home_work_ad_processor_g.Prelude.{
  ◌≡◌, ◌≢◌, refl, ◌∙◌, arith, Bool, true, some, String, str_refl, str_ne, inl, inr, Bool-cases, ℤ,
  Result, ok, err, lookup, lookup-insert,
}
use home_work_ad_processor_g.Redis.{Redis}
use home_work_ad_processor_g.RedisQueue.{Manager}
use home_work_ad_processor_g.Repository.{Repository}
use home_work_ad_processor_g.Service.{State}
use home_work_ad_processor_g.Command.{
  Command, CommandError, CommandResult, CommandStatus, executed, failed, invalid,
  cannot_be_executed, start_execution, fail_execution, complete_execution, mark_invalid,
}
use home_work_ad_processor_g.Command.Executor.{
  Intent, change_priority_by_game_family, change_priority_by_age, show_next_ads, queue_distribution,
  list_waiting_ads, enable_starvation_mode, set_max_wait_time, unsupported, read_intent,
  validate_command, can_execute, execute, execute_intent, Executed, finish,
}
use home_work_ad_processor_g.Command.CommandService.{
  CommandMap, ExecuteCommandResponse, World, Clock, store, reported, refused, started, validated,
  execute_command,
}

-- A command that `CanExecute` accepts is one that the `switch` of `Execute` has a case for.
can_execute_lem : (c : Command) → can_execute c ≡ true → read_intent c.intent ≢ unsupported
unfolding can_execute read_intent
can_execute_lem c h = ground arith

-- The states in which a command can end.
abbrev pub IsFinal : CommandStatus → Type 0
IsFinal executed = Unit
IsFinal failed = Unit
IsFinal invalid = Unit
IsFinal _ = ⊥

module _ (repo : Repository) (r : Redis) (uuid_ok : String → Bool) (m : Manager) where
  -- The executor keeps the command's identifier, and a success is an executed command.
  abbrev Keeps : Command → Executed repo r uuid_ok m → Type 0
  Keeps c (state, (c1, ok _)) = (c1.id ≡ c.id) × (c1.status ≡ executed)
  Keeps c (state, (c1, err e)) = c1.id ≡ c.id

  finish-Keeps {ℓ} :
      {A : Type ℓ} (c : Command) (done : ℤ) (state : State repo r uuid_ok m)
      (o : Result CommandError A) (result : A → CommandResult)
      → Keeps c (finish repo r uuid_ok m c done state o result)
  unfolding complete_execution fail_execution
  finish-Keeps c done state (ok a) result = (refl, refl)
  finish-Keeps c done state (err e) result = refl

  intent-Keeps :
      (state : State repo r uuid_ok m) (c : Command) (now unix done : ℤ) (i : Intent)
      → Keeps c (execute_intent repo r uuid_ok m state c now unix done i)
  unfolding complete_execution fail_execution
  intent-Keeps state c now unix done change_priority_by_game_family = finish-Keeps c done _ _ _
  intent-Keeps state c now unix done change_priority_by_age = finish-Keeps c done _ _ _
  intent-Keeps state c now unix done show_next_ads = finish-Keeps c done _ _ _
  intent-Keeps state c now unix done queue_distribution = (refl, refl)
  intent-Keeps state c now unix done list_waiting_ads = finish-Keeps c done _ _ _
  intent-Keeps state c now unix done enable_starvation_mode = (refl, refl)
  intent-Keeps state c now unix done set_max_wait_time = (refl, refl)
  intent-Keeps state c now unix done unsupported = refl

  -- The audit trail holds the command in a final state, which the response reports with its
  -- identifier, and every other command as it was.
  pub record Ended (c : Command) (commands : CommandMap)
      (out : World repo r uuid_ok m × ExecuteCommandResponse) : Type 0 where
    pub last : Command
    pub stored : lookup c.id out.0.1 ≡ some last
    pub same_id : last.id ≡ c.id
    pub final : IsFinal last.status
    pub about : out.1.command_id ≡ c.id
    pub status : out.1.status ≡ last.status
    pub others : (id : String) → c.id ≢ id → lookup id out.0.1 ≡ lookup id commands

  -- A stored command with the identifier of `c`.
  store_lem :
      (c c1 : Command) (commands : CommandMap)
      → c1.id ≡ c.id
      → (lookup c.id (store commands c1) ≡ some c1)
        × ((id : String) → c.id ≢ id → lookup id (store commands c1) ≡ lookup id commands)
  store_lem c c1 commands e = (
    lookup-insert c1.id c.id c1 commands ∙ rw (e, str_refl c.id) refl,
    λ id ne. lookup-insert c1.id id c1 commands ∙ rw (e, str_ne c.id id ne) refl,
  )

  reported-Ended :
      (c : Command) (commands : CommandMap) (later : ℤ) (x : Executed repo r uuid_ok m)
      → Keeps c x
      → Ended c commands (reported repo r uuid_ok m commands later x)
  unfolding fail_execution
  reported-Ended c commands later (state, (c1, ok u)) (e, done) =
      let (here, elsewhere) = store_lem c c1 commands e in
      record {
        last = c1;
        stored = here;
        same_id = e;
        final = rw done tt;
        about = e;
        status = refl;
        others = elsewhere;
      }
  reported-Ended c commands later (state, (c1, err x)) e =
      let (here, elsewhere) = store_lem c (fail_execution c1 x later) commands e in
      record {
        last = _;
        stored = here;
        same_id = e;
        final = tt;
        about = e;
        status = refl;
        others = elsewhere;
      }

  refused-Ended :
      (state : State repo r uuid_ok m) (c : Command) (commands : CommandMap) (e : CommandError)
      → Ended c commands (refused repo r uuid_ok m (state, commands) c e)
  unfolding mark_invalid
  refused-Ended state c commands e =
      let (here, elsewhere) = store_lem c (mark_invalid c e) commands refl in
      record {
        last = _;
        stored = here;
        same_id = refl;
        final = tt;
        about = refl;
        status = refl;
        others = elsewhere;
      }

  -- An earlier save of the same command leaves no trace.
  later-Ended :
      (c c1 : Command) (commands : CommandMap)
      (out : World repo r uuid_ok m × ExecuteCommandResponse)
      → c1.id ≡ c.id
      → Ended c (store commands c1) out
      → Ended c commands out
  later-Ended c c1 commands out e ended = record {
    last = ended.last;
    stored = ended.stored;
    same_id = ended.same_id;
    final = ended.final;
    about = ended.about;
    status = ended.status;
    others = λ id ne. ended.others id ne ∙ (store_lem c c1 commands e).1 id ne;
  }

  started-Ended :
      (state : State repo r uuid_ok m) (c : Command) (commands : CommandMap)
      (clock : Clock repo r uuid_ok m)
      → Ended c commands (started repo r uuid_ok m (state, commands) c clock)
  unfolding execute start_execution
  started-Ended state c commands clock = later-Ended c (start_execution c) commands _ refl (
      reported-Ended c (store commands (start_execution c)) clock.failed _ (
        intent-Keeps state (start_execution c) clock.now clock.unix clock.done
          (read_intent c.intent)))

  validated-Ended :
      (state : State repo r uuid_ok m) (c : Command) (commands : CommandMap)
      (clock : Clock repo r uuid_ok m) (v : Result CommandError (Unit {0}))
      → Ended c commands (validated repo r uuid_ok m (state, commands) c clock v)
  validated-Ended state c commands clock (err e) = refused-Ended state c commands e
  validated-Ended state c commands clock (ok u) = elim (Bool-cases (can_execute c)) [
    | inl e ↦ rw e (started-Ended state c commands clock)
    | inr e ↦ rw e (refused-Ended state c commands cannot_be_executed)
  ]

  -- `ExecuteCommand` of a text that parses leaves the command in the audit trail as executed, failed
  -- or invalid, never in a state on the way, and every other command as it was; the response
  -- reports that identifier and that state.
  pub execute_command-Ended :
      (parse : String → Result String Command) (text : String) (c : Command)
      (state : State repo r uuid_ok m) (commands : CommandMap) (clock : Clock repo r uuid_ok m)
      → parse text ≡ ok c
      → Ended c commands (execute_command repo r uuid_ok m parse (state, commands) text clock)
  unfolding execute_command
  execute_command-Ended parse text c state commands clock e = rw e (
      later-Ended c c commands _ refl
        (validated-Ended state c (store commands c) clock (validate_command c)))
