-- ===== src/Server/Config.antt =====
-- What the process reads from its environment: src/config/database.config.ts,
-- src/integrations/redis/config/redis.config.ts, src/integrations/bullmq/config/bullmq.config.ts,
-- src/integrations/notification/config/notification.config.ts and src/iam/config/jwt.config.ts, and the
-- clients that src/integrations makes of it. A number in it has no leading white space.
use eventify.Common.{
  ◌≡◌, ◌⊎◌, refl, Bool, true, Option, none, some, String, str_eq, eq_iff, Bool-cases, inl, inr,
  if◌then◌else◌,
}
use eventify.Common.Exec.{Outcome, ok, throw}
use eventify.Common.Number.{Number, parse_int}
use Prim.Native.String

-- `process.env`.
abbrev pub Env : Type 0
Env = String → Option String

-- `text || other` and `text ?? other`.
abbrev pub or_text : Option String → String → String
or_text none other = other
or_text (some t) other = if str_eq t "" then other else t

abbrev pub if_missing : Option String → String → String
if_missing none other = other
if_missing (some t) other = t

-- The `database` configuration: its `uri`.
unfoldable pub database_config : Env → String
database_config env = or_text (env "MONGODB_URI") "mongodb://localhost:27017/eventify"

-- The `redis` and the `bullmq` configuration.
pub record RedisConfig : Type 0 where
  pub port : Number
  pub host : Option String
  pub password : Option String

unfoldable pub redis_config : Env → RedisConfig
redis_config env = record {
  port = parse_int (or_text (env "REDIS_PORT") "6379");
  host = env "REDIS_HOST";
  password = env "REDIS_PASSWORD";
}

unfoldable pub bullmq_config : Env → RedisConfig
bullmq_config env = record {
  port = parse_int (or_text (env "REDIS_PORT") "6379");
  host = env "REDIS_HOST";
  password = env "REDIS_PASSWORD";
}

-- What the clients of Redis are made with: the password is left out.
pub record Connection : Type 0 where
  pub port : Number
  pub host : Option String

unfoldable pub redis_client : RedisConfig → Connection
redis_client config = record { port = config.port; host = config.host }

unfoldable pub bullmq_connection : RedisConfig → Connection
bullmq_connection config = record { host = config.host; port = config.port }

pub record JwtConfig : Type 0 where
  pub secret : Option String
  pub audience : Option String
  pub issuer : Option String
  pub access_token_ttl : Number
  pub refresh_token_ttl : Number

unfoldable pub jwt_config : Env → JwtConfig
jwt_config env = record {
  secret = env "JWT_SECRET";
  audience = env "JWT_TOKEN_AUDIENCE";
  issuer = env "JWT_TOKEN_ISSUER";
  access_token_ttl = parse_int (if_missing (env "JWT_ACCESS_TOKEN_TTL") "3600");
  refresh_token_ttl = parse_int (if_missing (env "JWT_REFRESH_TOKEN_TTL") "86400");
}

pub record GmailConfig : Type 0 where
  pub service : Option String
  pub host : Option String
  pub port : Number
  pub user : Option String
  pub password : Option String

pub record NotificationConfig : Type 0 where
  pub provider : String
  pub gmail : GmailConfig

unfoldable pub notification_config : Env → NotificationConfig
notification_config env = record {
  provider = or_text (env "NOTIFICATION_PROVIDER") "gmail";
  gmail = record {
    service = env "GMAIL_SERVICE";
    host = env "GMAIL_HOST";
    port = parse_int (or_text (env "GMAIL_PORT") "465");
    user = env "GMAIL_USER";
    password = env "GMAIL_PASSWORD";
  };
}

-- The options of the Gmail client's transport.
pub record Transport : Type 0 where
  pub service : Option String
  pub host : Option String
  pub port : Number
  pub user : Option String
  pub pass : Option String
  pub secure : Bool

unfoldable pub create_transport : NotificationConfig → Transport
create_transport config = record {
  service = config.gmail.service;
  host = config.gmail.host;
  port = config.gmail.port;
  user = config.gmail.user;
  pass = config.gmail.password;
  secure = true;
}

-- The factory of the notification client, or the error that stops the start.
unfoldable pub notification_client : NotificationConfig → Outcome String Transport
unfolding create_transport
notification_client config =
    if str_eq config.provider "gmail"
    then ok (create_transport config)
    else throw (String.◌++◌ "Unknown notification provider: " config.provider)

-- The sessions and the queues use one server.
pub bullmq_connection-redis_client :
    (env : Env) → bullmq_connection (bullmq_config env) ≡ redis_client (redis_config env)
unfolding bullmq_connection bullmq_config redis_client redis_config
bullmq_connection-redis_client env = refl

-- The process starts exactly if no provider is named, or Gmail is: Slack has a client, but no case.
pub notification_client_lem :
    (env : Env)
    → ((notification_client (notification_config env)
          ≡ ok (create_transport (notification_config env)))
        × (or_text (env "NOTIFICATION_PROVIDER") "gmail" ≡ "gmail"))
      ⊎ (notification_client (notification_config env)
          ≡ throw (
              String.◌++◌ "Unknown notification provider: "
                (or_text (env "NOTIFICATION_PROVIDER") "gmail")))
unfolding notification_client notification_config
notification_client_lem env =
    elim (Bool-cases (str_eq (or_text (env "NOTIFICATION_PROVIDER") "gmail") "gmail")) [
      | inl e ↦ inl (rw e refl, (eq_iff _ _).0 e)
      | inr e ↦ inr (rw e refl)
    ]
