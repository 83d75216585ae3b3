-- ===== src/Runtime/State/Reporting.antt =====
-- How the engine's status follows deliveries, starts and stops.
use investment_research_engi.Base.{◌≡◌, arith, if◌then◌else◌, ◌&&◌}
use investment_research_engi.Runtime.Domain.{EngineStatus}
use investment_research_engi.Runtime.State.{Env, ServiceState, stop_engine, busy_or_idle}

-- `stop` leaves the status STOPPED unless the reporting was degraded and the last event gets through.
-- A degraded engine whose ENGINE_STOPPING event is delivered has the status IDLE or RUNNING again.
pub stop_engine-status :
    (env : Env) (s : ServiceState)
    → (stop_engine env s).state.status ≡ (
        if s.state.reporting_degraded && env.delivers s.publications
        then busy_or_idle s.state.active_execution_ids
        else EngineStatus.stopped)
unfolding stop_engine
stop_engine-status env s = ground arith
