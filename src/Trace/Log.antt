-- ===== src/Trace/Log.antt =====
-- consul-lambda/trace/logger.go: the logger that passes the messages on to go-hclog, whose loggers
-- and levels are parameters, as is `fmt.Sprint`.
use terraform_aws_consul_lam.Prelude.{Text, Option, none, some, List}
use terraform_aws_consul_lam.Trace.{Part}

-- `HCLog`
pub record HcLog (Logger Level : Type 0) : Type 0 where
  pub logger : Logger
  pub level : Level

module _ {Logger Level : Type 0} (new_null_logger : Logger) where
  -- `NewHCLog`
  unfoldable pub new_hc_log : Option Logger → Level → HcLog Logger Level
  new_hc_log none level = record { logger = new_null_logger; level = level }
  new_hc_log (some l) level = record { logger = l; level = level }

-- `Print`, in a state of the logging outside
unfoldable pub print :
    {Logger Level S : Type 0} (sprint : List Part → Text) (log : Logger → Level → Text → S → S)
    → HcLog Logger Level
    → List Part
    → S
    → S
print sprint log l args s = log l.logger l.level (sprint args) s
