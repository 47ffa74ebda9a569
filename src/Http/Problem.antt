-- ===== src/Http/Problem.antt =====
-- `describeRequestFailure` of frontend/lib/request-failure.ts, and what it offers to retry.
use lexi_go.Common.{
  ℕ, Bool, true, false, not, ◌&&◌, Option, ◌++◌, Text, codes, leb, ltb, ◌≡◌, arith,
}
use lexi_go.Http.Response.{Response}
use lexi_go.Http.Failure.{
  RequestFailureKind, unauthorized, forbidden, offline, timeout, malformed, server, client, unknown,
  RequestFailure, Thrown, failure, to_request_failure, failure_from_response,
  failure_kind_for_status,
}

pub record RequestProblem : Type 0 where
  pub kind : RequestFailureKind
  pub title : Text
  pub message : Text
  pub retryable : Bool
  pub status : ℕ
  pub code : Text
  pub correlation_id : Text

problem : RequestFailure → Text → Text → Bool → RequestProblem
problem f title message retryable = record {
  kind = f.kind;
  title = title;
  message = message;
  retryable = retryable;
  status = f.status;
  code = f.code;
  correlation_id = f.correlation_id;
}

describe_kind : RequestFailureKind → RequestFailure → Text → RequestProblem
unfolding problem
describe_kind unauthorized f resource =
    problem f (codes "Сессия истекла")
      (codes "Войдите снова, чтобы загрузить " ++ resource ++ codes ".") false
describe_kind forbidden f resource =
    problem f (codes "Доступ ограничен")
      (codes "У текущей сессии нет доступа к ресурсу «" ++ resource ++ codes "».") false
describe_kind offline f resource =
    problem f (codes "Нет подключения к сети")
      (codes "Не удалось загрузить "
        ++ resource
        ++ codes ". Проверьте соединение и повторите запрос.")
      true
describe_kind timeout f resource =
    problem f (codes "Сервер отвечает слишком долго")
      (codes "Загрузка ресурса «" ++ resource ++ codes "» превысила допустимое время.") true
describe_kind malformed f resource =
    problem f (codes "Получены несовместимые данные")
      (codes "Сервер вернул повреждённый или устаревший формат ресурса «" ++ resource ++ codes "».")
      true
describe_kind server f resource =
    problem f (codes "Сервис временно недоступен")
      (codes "Не удалось загрузить " ++ resource ++ codes " из-за ошибки сервера.") true
describe_kind client f resource =
    problem f (codes "Запрос отклонён")
      (codes "Сервис не смог обработать запрос ресурса «" ++ resource ++ codes "».") false
describe_kind unknown f resource =
    problem f (codes "Не удалось загрузить данные")
      (codes "При загрузке ресурса «" ++ resource ++ codes "» произошла неизвестная ошибка.") true

unfoldable pub describe_request_failure : Thrown → Text → RequestProblem
unfolding describe_kind to_request_failure
describe_request_failure error resource =
    let f = to_request_failure error in describe_kind f.kind f resource

describe_kind-status :
    (k : RequestFailureKind) (f : RequestFailure) (resource : Text)
    → ((describe_kind k f resource).status ≡ f.status)
      × ((describe_kind k f resource).code ≡ f.code)
unfolding describe_kind problem
describe_kind-status k f resource = ground arith

retryable-status :
    (status : ℕ) (f : RequestFailure) (resource : Text)
    → (describe_kind (failure_kind_for_status status) f resource).retryable
      ≡ not (leb 400 status && ltb status 500)
unfolding describe_kind problem failure_kind_for_status
retryable-status status f resource = ground arith

-- A response that failed is offered for a retry exactly when its status is none of 400 to 499, and
-- the problem shows the status of the response.
pub describe-failure_from_response :
    (r : Response) (a b c : Option Text) (resource : Text)
    → let p = describe_request_failure (failure (failure_from_response r a b c)) resource in
      (p.retryable ≡ not (leb 400 r.status && ltb r.status 500)) × (p.status ≡ r.status)
unfolding describe_request_failure to_request_failure failure_from_response
describe-failure_from_response r a b c resource = (
  retryable-status r.status (failure_from_response r a b c) resource,
  (describe_kind-status _ (failure_from_response r a b c) resource).0,
)
