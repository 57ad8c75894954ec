-- ===== src/Opt/Parse/Progress.antt =====
-- common/option/opt_table.cc: theorems about the loop of internal_parse_args.
use catter.Opt.Info.{Info}
use catter.Opt.ParseOne.{Grouped}
use catter.Opt.Parse.Indices.{Indices}
