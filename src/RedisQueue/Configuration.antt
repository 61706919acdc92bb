-- ===== src/RedisQueue/Configuration.antt =====
-- internal/infrastructure/cache/redis_queue_manager.go, `UpdateConfig` and `GetConfig`: the queue's
-- configuration as a text under the key `queue:config`.
use home_work_ad_processor_g.Prelude.{
  ◌≡◌, refl, ap, ◌∙◌, List, [], ◌∷◌, String, ℤ, pos, ◌*ℤ◌, Result, ok, err, write_bool, write_int,
  atoi, parse_bool, split_colon, IsInt, atoi-write_int, split-write_int, split-write_bool,
  split_at_colon, parse-write_bool, none,
}
use home_work_ad_processor_g.Queue.{QueueConfig}
use home_work_ad_processor_g.Redis.{Reply}
use home_work_ad_processor_g.Redis.Keys.{KeyValue, KeyLaws, text_reply}
use home_work_ad_processor_g.Duration.{second, seconds}
use home_work_ad_processor_g.RedisQueue.{Manager}

abbrev pub config_key : String
config_key = "queue:config"

abbrev colon : String → String
colon rest = String.◌∷◌ ":" rest

-- "%t:%d:%d:%d:%d".
unfoldable pub config_data : QueueConfig → String
unfolding seconds
config_data config = write_bool config.anti_starvation_enabled (
    colon (
      write_int (seconds config.max_wait_time) (
        colon (
          write_int config.worker_count (
            colon (
              write_int config.batch_size
                (colon (write_int (seconds config.processing_timeout) ""))))))))

-- A text of five parts as a configuration; any other leaves the current one.
unfoldable pub parse_config : QueueConfig → List String → QueueConfig
parse_config current (flag ∷ wait ∷ workers ∷ batch ∷ timeout ∷ []) = record {
  anti_starvation_enabled = parse_bool flag;
  max_wait_time = atoi wait *ℤ pos second;
  worker_count = atoi workers;
  batch_size = atoi batch;
  processing_timeout = atoi timeout *ℤ pos second;
}
parse_config current _ = current

pub data ConfigError : Type 0 where
  get_config_failed : ConfigError

module _ (kv : KeyValue) where
  -- `UpdateConfig`: the manager has the new configuration even when Redis refuses.
  unfoldable pub update_config :
      Manager → kv.Store → ℤ → QueueConfig → Manager × kv.Store × Reply (Unit {0})
  unfolding config_data
  update_config m s now config =
      let (s1, reply) = kv.set s now config_key (config_data config) (pos 0) in
      (record m { config = config }, s1, reply)

  abbrev pub config_of : Manager → Reply String → Result ConfigError QueueConfig
  config_of m (Reply.ok text) = ok (parse_config m.config (split_colon text))
  config_of m Reply.nil = ok m.config
  config_of m Reply.fail = err get_config_failed

  -- `GetConfig`.
  unfoldable pub get_config : Manager → kv.Store → ℤ → Result ConfigError QueueConfig
  get_config m s now = config_of m (kv.get s now config_key)

-- A configuration with its two durations in whole seconds, as `Seconds` gives them.
abbrev pub in_seconds : QueueConfig → QueueConfig
in_seconds config = record config {
  max_wait_time = seconds config.max_wait_time *ℤ pos second;
  processing_timeout = seconds config.processing_timeout *ℤ pos second;
}

-- The numbers of a configuration are of Go's type `int`.
pub record HasInts (config : QueueConfig) : Type 0 where
  pub wait : IsInt (seconds config.max_wait_time)
  pub workers : IsInt config.worker_count
  pub batch : IsInt config.batch_size
  pub timeout : IsInt (seconds config.processing_timeout)

-- The parts of a text that begins with a printed number and a colon.
split_int :
    (z : ℤ) (rest : String) (parts : List String)
    → split_colon rest ≡ parts
    → split_colon (write_int z (colon rest)) ≡ write_int z "" ∷ parts
split_int z rest parts h =
    split-write_int z (colon rest) "" parts (split_at_colon rest ∙ ap (λ l. "" ∷ l) h)

split_empty : split_colon "" ≡ "" ∷ []
unfolding split_colon
split_empty = refl

split_config :
    (config : QueueConfig)
    → split_colon (config_data config)
      ≡ write_bool config.anti_starvation_enabled ""
        ∷ write_int (seconds config.max_wait_time) ""
        ∷ write_int config.worker_count ""
        ∷ write_int config.batch_size ""
        ∷ write_int (seconds config.processing_timeout) ""
        ∷ []
unfolding config_data
split_config config =
    let timeout = split-write_int (seconds config.processing_timeout) "" "" [] split_empty in
    let batch = split_int config.batch_size _ _ timeout in
    let workers = split_int config.worker_count _ _ batch in
    let wait = split_int (seconds config.max_wait_time) _ _ workers in
    split-write_bool config.anti_starvation_enabled _ "" _
      (split_at_colon _ ∙ ap (λ l. "" ∷ l) wait)

parse_data :
    (current config : QueueConfig)
    → HasInts config
    → parse_config current (split_colon (config_data config)) ≡ in_seconds config
unfolding parse_config
parse_data current config fits = ap (parse_config current) (split_config config) ∙ read
  where
    read :
        parse_config current (
          write_bool config.anti_starvation_enabled ""
          ∷ write_int (seconds config.max_wait_time) ""
          ∷ write_int config.worker_count ""
          ∷ write_int config.batch_size ""
          ∷ write_int (seconds config.processing_timeout) ""
          ∷ [])
        ≡ in_seconds config
    read =
        let flag = parse-write_bool config.anti_starvation_enabled in
        let wait = atoi-write_int (seconds config.max_wait_time) fits.wait in
        let workers = atoi-write_int config.worker_count fits.workers in
        let batch = atoi-write_int config.batch_size fits.batch in
        let timeout = atoi-write_int (seconds config.processing_timeout) fits.timeout in cc

module _ (kv : KeyValue) (laws : KeyLaws kv) where
  -- On a server that is up, a configuration that one process stores is what every process reads, with
  -- its two durations in the whole seconds that `Seconds` gives, whatever configuration the reader has. A process that
  -- reads before anything was stored gets its own.
  pub get_config-update_config :
      (m reader : Manager) (s : kv.Store) (now later : ℤ) (config : QueueConfig)
      → laws.Up s
      → HasInts config
      → (let s1 = (update_config kv m s now config).1 in
          get_config kv reader s1 later ≡ ok (in_seconds config))
        × (laws.content s later config_key ≡ none → get_config kv reader s later ≡ ok reader.config)
  unfolding update_config get_config
  get_config-update_config m reader s now later config up fits =
      let s1 = (kv.set s now config_key (config_data config) (pos 0)).0 in
      let up1 = laws.set-Up s now config_key (config_data config) (pos 0) up in
      let stored =
        laws.content-set s now config_key (config_data config) (pos 0) later config_key up in
      (
        ap (config_of kv reader) (laws.get_lem s1 later config_key up1 ∙ ap text_reply stored)
            ∙ ap ok (parse_data reader.config config fits),
        λ empty.
            ap (config_of kv reader) (laws.get_lem s later config_key up ∙ ap text_reply empty),
      )
