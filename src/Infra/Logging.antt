-- ===== src/Infra/Logging.antt =====
-- internal/infra/logging/log.go: the handler of the log, which adds the identifiers of a span to what
-- the base handler gets. A base handler of package slog is a value of `H`, and a context of `C`.
use kenshu_elaris_project_st.Base.{ℤ, String, Bool, Option, List, [], ◌∷◌, ◌++◌, if◌then◌else◌}
use kenshu_elaris_project_st.Domain.Errors.{Error, Result, ok, err}
use kenshu_elaris_project_st.Config.{AppConfig}

-- A line of the log; of an attribute, its key and its text.
pub record LogRecord : Type 0 where
  pub level : ℤ
  pub message : String
  pub attrs : List (String × String)

pub record SpanContext : Type 0 where
  pub is_valid : Bool
  pub trace_id : String
  pub span_id : String

-- What is called of packages slog, os and trace. `new_json_handler` is given the least level, and a
-- handler that names the place in the source.
pub record LogLibrary (D C H : Type 0) : Type 0 where
  pub new_json_handler : (level : ℤ) → H
  pub enabled : H → C → (level : ℤ) → Bool
  pub handle : H → C → LogRecord → D → Option Error × D
  pub with_attrs : H → List (String × String) → H
  pub with_group : H → String → H
  pub span_context : C → SpanContext
  pub hostname : D → Result String × D

pub record TraceHandler (H : Type 0) : Type 0 where
  pub base : H

-- `r.AddAttrs`, in a span that is valid.
abbrev with_span : SpanContext → LogRecord → LogRecord
with_span sc r =
    if sc.is_valid
    then record r { attrs = r.attrs ++ ("trace_id", sc.trace_id) ∷ ("span_id", sc.span_id) ∷ [] }
    else r

module _ {D C H : Type 0} (l : LogLibrary D C H) where
  unfoldable pub enabled : TraceHandler H → C → ℤ → Bool
  enabled h ctx level = l.enabled h.base ctx level

  unfoldable pub handle : TraceHandler H → C → LogRecord → D → Option Error × D
  handle h ctx r = l.handle h.base ctx (with_span (l.span_context ctx) r)

  unfoldable pub with_attrs : TraceHandler H → List (String × String) → TraceHandler H
  with_attrs h attrs = record { base = l.with_attrs h.base attrs }

  unfoldable pub with_group : TraceHandler H → String → TraceHandler H
  with_group h name = record { base = l.with_group h.base name }

  named : Result String → String
  named (ok hostname) = hostname
  named (err e) = "unknown"

  -- `NewLogger`: a logger is its handler, and `With` of a logger is `WithAttrs` of it.
  unfoldable pub new_logger : AppConfig → D → TraceHandler H × D
  unfolding with_attrs named
  new_logger app_config x =
      let trace_handler : TraceHandler H = record {
        base = l.new_json_handler app_config.log.level;
      } in
      let (hostname, y) = l.hostname x in
      (with_attrs trace_handler (("app", named hostname) ∷ []), y)
