-- ===== src/Tools.antt =====
-- apps/api/app/tools/: the tools that change tables of their own.
pub mod Payments
pub mod Deploy
use safeops.Prelude.{String, Option, none, some, append_text}

-- What a tool's `_run` comes to: its output, a ToolExecutionError, or another exception.
pub data ToolAnswer (A : Type 0) : Type 0 where
  done : A → ToolAnswer A
  tool_error : String → String → ToolAnswer A
  broken : ToolAnswer A

-- What a commit leaves, which may have been refused.
abbrev pub or_unchanged : {A : Type 0} → A → Option A → A
or_unchanged a none = a
or_unchanged a (some a') = a'

abbrev pub quoted : String → String → String → String
quoted before name behind = append_text before (append_text name behind)
