-- ===== src/Research/Service/Monad.antt =====
-- A method of the service: the files, and exceptions. What was written stays written after a raise.
pub use investment_research_engi.Base.Step.{◌>>=◌, ◌>>◌, pure, raise, gets, modify, raise_when}
use investment_research_engi.Base.Step.{Step}
use investment_research_engi.Base.Result.{Result, ok, err}
use investment_research_engi.Research.Domain.{DomainError}
use investment_research_engi.Research.Repository.{Files, FileError}

pub data ServiceError : Type 0 where
  already_initialized approver_missing not_a_candidate references_missing : ServiceError
  invalid_parameters data_unavailable backtest_failed : ServiceError
  of_domain_error : DomainError → ServiceError
  of_file_error : FileError → ServiceError

abbrev pub Action : Type 0 → Type 0
Action A = Step Files ServiceError A

module _ {A : Type 0} where
  abbrev pub of_domain : Result DomainError A → Action A
  of_domain (ok a) s = (ok a, s)
  of_domain (err e) s = (err (ServiceError.of_domain_error e), s)

  abbrev lifted : Result FileError A → Files → Result ServiceError A × Files
  lifted (ok a) s = (ok a, s)
  lifted (err e) s = (err (ServiceError.of_file_error e), s)

  abbrev pub of_files : (Files → Result FileError A) → Action A
  of_files f s = lifted (f s) s
