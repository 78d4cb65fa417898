-- ===== src/Jobs/Cancelling.antt =====
-- jobs/dispatch.py: what a handler meets once its job's cancellation was asked for.
use agentic_alpha_engine.Prelude.{String_eq}
use agentic_alpha_engine.Jobs.Repository.{Repository}
