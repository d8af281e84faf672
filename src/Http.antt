-- ===== src/Http.antt =====
-- http_api_server.h and http_api_server.cpp: what a request is taken for and how an answer is written.
-- Sockets, threads and JSON are no code of the repository; the reading of the header lines is left out.
pub mod Decoding
use multi_constraint_iot_edg.Common.{
  ℕ, zero, suc, ◌+◌, ◌*◌, ◌-◌, ◌<◌, ◌==◌, Bool, true, false, List, [], ◌∷◌, ◌++◌, Option, none,
  some, length, if◌then◌else◌, Text, text_eq, codes, ◌||◌, ◌&&◌, leb, ltb,
}
use multi_constraint_iot_edg.Manager.{decimal}

unfoldable pub is_blank : ℕ → Bool
is_blank c = (c == 32) || ((c == 9) || ((c == 13) || (c == 10)))

unfoldable pub drop_blanks : Text → Text
drop_blanks [] = []
drop_blanks (c ∷ t) = let rest = drop_blanks t in if is_blank c then rest else c ∷ t

drop_last_blanks : Text → Text
drop_last_blanks [] = []
drop_last_blanks (c ∷ t) = keep c (drop_last_blanks t)
  where
    keep : ℕ → Text → Text
    keep c [] = if is_blank c then [] else c ∷ []
    keep c (x ∷ xs) = c ∷ x ∷ xs

unfoldable pub trim : Text → Text
unfolding drop_last_blanks
trim value = drop_last_blanks (drop_blanks value)

-- The value of a hexadecimal digit; `none` is -1.
unfoldable pub hex : ℕ → Option ℕ
hex c =
    if leb 48 c && leb c 57
    then some (c - 48)
    else if leb 97 c && leb c 102
    then some (c - 97 + 10)
    else if leb 65 c && leb c 70
    then some (c - 65 + 10)
    else none

-- A character that is kept, or one made of two digits. The loop goes on behind it.
decoded : Option ℕ → Option ℕ → ℕ → Text → Text → Text
decoded (some hi) (some lo) c kept rest = (16 * hi + lo) ∷ rest
decoded _ _ c kept rest = c ∷ kept

unfoldable pub url_decode : Text → Text
unfolding decoded
url_decode (c ∷ h ∷ l ∷ t) =
    let kept = url_decode (h ∷ l ∷ t) in
    let rest = url_decode t in if c == 37 then decoded (hex h) (hex l) c kept rest else c ∷ kept
url_decode t = t

unfoldable pub status_text : ℕ → Text
status_text code =
    if code == 200
    then codes "OK"
    else if code == 204
    then codes "No Content"
    else if code == 400
    then codes "Bad Request"
    else if code == 404
    then codes "Not Found"
    else if code == 500
    then codes "Internal Server Error"
    else codes "Response"

crlf : Text
crlf = 13 ∷ 10 ∷ []

unfoldable pub make_response : ℕ → Text → Text → Text → Text
unfolding crlf
make_response status_code text content_type body =
    codes "HTTP/1.1 "
    ++ decimal status_code
    ++ codes " "
    ++ text
    ++ crlf
    ++ codes "Content-Type: "
    ++ content_type
    ++ crlf
    ++ codes "Content-Length: "
    ++ decimal (length body)
    ++ crlf
    ++ codes "Access-Control-Allow-Origin: *"
    ++ crlf
    ++ codes "Access-Control-Allow-Methods: GET, PUT, OPTIONS"
    ++ crlf
    ++ codes "Access-Control-Allow-Headers: Content-Type"
    ++ crlf
    ++ codes "Connection: close"
    ++ crlf
    ++ crlf
    ++ body

-- What the runtime is asked for.
pub data Endpoint : Type 0 where
  health get_status get_configuration put_configuration get_devices get_edge_nodes get_tasks
        get_active_tasks get_allocations get_metrics get_activities get_alerts get_resource_history
        not_found :
      Endpoint
  get_task_lifecycle : Text → Endpoint

-- The path ends at the query.
unfoldable pub before_query : Text → Text
before_query [] = []
before_query (c ∷ t) = let rest = before_query t in if c == 63 then [] else c ∷ rest

-- What follows a prefix; `none` where the text does not start with it.
unfoldable pub after_prefix : Text → Text → Option Text
after_prefix [] t = some t
after_prefix (p ∷ ps) [] = none
after_prefix (p ∷ ps) (c ∷ t) = let rest = after_prefix ps t in if p == c then rest else none

-- The tests of the chain that follow the one for a single task.
route_later : Text → Endpoint
route_later path =
    if text_eq path (codes "/api/allocations")
    then get_allocations
    else if text_eq path (codes "/api/metrics")
    then get_metrics
    else if text_eq path (codes "/api/activities")
    then get_activities
    else if text_eq path (codes "/api/alerts")
    then get_alerts
    else if text_eq path (codes "/api/resource-history")
    then get_resource_history
    else not_found

route_task : Option Text → Text → Endpoint
unfolding route_later
route_task (some (c ∷ id)) path = get_task_lifecycle (c ∷ id)
route_task (some []) path = route_later path
route_task none path = route_later path

route_get : Text → Endpoint
unfolding route_task
route_get path =
    if text_eq path (codes "/api/health")
    then health
    else if text_eq path (codes "/api/status")
    then get_status
    else if text_eq path (codes "/api/configuration")
    then get_configuration
    else if text_eq path (codes "/api/devices")
    then get_devices
    else if text_eq path (codes "/api/edge-nodes")
    then get_edge_nodes
    else if text_eq path (codes "/api/tasks")
    then get_tasks
    else if text_eq path (codes "/api/tasks/active")
    then get_active_tasks
    else route_task (after_prefix (codes "/api/tasks/") path) path

-- The chain of tests over the method and the target of a request.
unfoldable pub route : Text → Text → Endpoint
unfolding route_get
route method target =
    let path = url_decode (before_query target) in
    if text_eq method (codes "GET")
    then route_get path
    else if text_eq method (codes "PUT") && text_eq path (codes "/api/configuration")
    then put_configuration
    else not_found
