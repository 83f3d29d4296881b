-- ===== src/Api/Status.antt =====
-- The answers of the handlers of pkg/plugin/endpoints.go: their status, and what a request that
-- cannot be parsed does.
use docker_net_dhcp.Shared.{
  Bool, true, false, Option, none, some, sym, ap, ◌∙◌, ◌≡◌, inl, inr, refl, Option-cases,
}
use docker_net_dhcp.Shared.Text.{Text, text}
use docker_net_dhcp.Shared.Result.{Result, ok, err}
use docker_net_dhcp.Json.{Json, object, field, string, end}
use docker_net_dhcp.Errors.{Error, err_to_status}
use docker_net_dhcp.Plugin.{Plugin}
use docker_net_dhcp.Network.{
  World, EndpointRequest, CreateNetworkRequest, create_network, remove_network, remove_endpoint,
  leave,
}
use docker_net_dhcp.Network.Identify.{CreateEndpointRequest}
use docker_net_dhcp.Network.Create.{create_endpoint}
use docker_net_dhcp.Network.Join.{JoinRequest, join}
use docker_net_dhcp.Api.Answer.{
  Response, document, failure, plain, json_response, json_err_response, respond, with_request,
  result_of, map_result, encode_created, encode_join,
}
use docker_net_dhcp.Api.{
  Shown, Handler, health, get_capabilities, create_network_path, delete_network_path,
  create_endpoint_path, endpoint_oper_info_path, delete_endpoint_path, join_path, leave_path, serve,
  api_health, api_get_capabilities, api_create_network, api_delete_network, api_create_endpoint,
  api_endpoint_oper_info, api_delete_endpoint, api_join, api_leave, endpoint_oper_info, creating,
  deleting, attaching, detaching, answering, leaving,
}
use docker_net_dhcp.Api.Request.{
  decode_endpoint_request, decode_join_request, decode_create_endpoint_request,
  decode_create_network_request, decode_network_id,
}

-- what an operation that only can fail shows
abbrev pub empty_or : Option Error → Result Error Json
empty_or none = ok (object end)
empty_or (some e) = err e

-- what a result shows: the document of a value, or the error
abbrev pub shown_as : {A : Type 0} → (A → Json) → Result Error A → Result Error Json
shown_as encode (ok a) = ok (encode a)
shown_as encode (err e) = err e

abbrev pub takes_body : Handler → Bool
takes_body health = false
takes_body get_capabilities = false
takes_body _ = true

result_of-empty_or : (o : Option Error) → result_of o ≡ empty_or o
result_of-empty_or none = refl
result_of-empty_or (some e) = refl

map_result-shown_as :
    {A : Type 0} (encode : A → Json) (s : Plugin × Result Error A)
    → ((map_result encode s).0 ≡ s.0) × ((map_result encode s).1 ≡ shown_as encode s.1)
map_result-shown_as encode (p, ok a) = (refl, refl)
map_result-shown_as encode (p, err e) = (refl, refl)

module _ (w : World) (n : Shown) (p : Plugin) where
  -- the document asks for the operation of this path, which leaves the plugin `q` and shows `v`
  abbrev pub Asks : Handler → Json → Plugin → Result Error Json → Type 0
  Asks health doc q v = ⊥
  Asks get_capabilities doc q v = ⊥
  Asks create_network_path doc q v =
      (r : CreateNetworkRequest) × (decode_create_network_request n.texts doc ≡ some r)
      × (q ≡ (create_network w r p).0)
      × (v ≡ empty_or (create_network w r p).1)
  Asks delete_network_path doc q v =
      (id : Text) × (decode_network_id doc ≡ some id)
      × (q ≡ remove_network w id p)
      × (v ≡ ok (object end))
  Asks create_endpoint_path doc q v =
      (r : CreateEndpointRequest) × (decode_create_endpoint_request doc ≡ some r)
      × (q ≡ (create_endpoint w r p).0)
      × (v ≡ shown_as encode_created (create_endpoint w r p).1)
  Asks endpoint_oper_info_path doc q v =
      (r : EndpointRequest) × (decode_endpoint_request doc ≡ some r)
      × (q ≡ (endpoint_oper_info w n.addresses r p).0)
      × (v ≡ (endpoint_oper_info w n.addresses r p).1)
  Asks delete_endpoint_path doc q v =
      (r : EndpointRequest) × (decode_endpoint_request doc ≡ some r)
      × (q ≡ remove_endpoint w r p)
      × (v ≡ ok (object end))
  Asks join_path doc q v =
      (r : JoinRequest) × (decode_join_request doc ≡ some r)
      × (q ≡ (join w n.routes r p).0)
      × (v ≡ shown_as encode_join (join w n.routes r p).1)
  Asks leave_path doc q v =
      (r : EndpointRequest) × (decode_endpoint_request doc ≡ some r)
      × (q ≡ leave w r p)
      × (v ≡ ok (object end))

  -- the answer to a request
  pub data Answers : Handler → Option Json → Plugin × Response → Type 0 where
    healthy :
        {body : Option Json} {r : Response}
        → r.status ≡ 200
        → r.body ≡ plain (text "OK")
        → Answers health body (p, r)
    capable :
        {body : Option Json} {r : Response}
        → r.status ≡ 200
        → r.body ≡ document (object (field (text "Scope") (string (text "local")) end))
        → Answers get_capabilities body (p, r)
    succeeds :
        {h : Handler} {doc v : Json} {q : Plugin} {r : Response}
        → Asks h doc q (ok v)
        → r.status ≡ 200
        → r.body ≡ document v
        → Answers h (some doc) (q, r)
    fails :
        {h : Handler} {doc : Json} {e : Error} {q : Plugin} {r : Response}
        → Asks h doc q (err e)
        → r.status ≡ err_to_status e
        → r.body ≡ failure e
        → Answers h (some doc) (q, r)
    malformed :
        {h : Handler} {body : Option Json} {e : Error} {r : Response}
        → takes_body h ≡ true
        → ((doc : Json) (q : Plugin) (v : Result Error Json) → body ≡ some doc → ¬ (Asks h doc q v))
        → r.status ≡ 400
        → r.body ≡ failure e
        → Answers h body (p, r)

  respond-Answers :
      (h : Handler) (doc : Json) (q : Plugin) (result : Result Error Json)
      → Asks h doc q result
      → Answers h (some doc) (q, respond result)
  unfolding json_response json_err_response
  respond-Answers h doc q (ok v) asked = succeeds asked refl refl
  respond-Answers h doc q (err e) asked = fails asked refl refl

  with_request-Answers :
      {R : Type 0} (h : Handler) (decode : Json → Option R) (body : Option Json)
      (operation : R → Plugin → Plugin × Result Error Json)
      → takes_body h ≡ true
      → ((doc : Json) (r : R)
          → decode doc ≡ some r
          → Asks h doc (operation r p).0 (operation r p).1)
      → ((doc : Json) (q : Plugin) (v : Result Error Json)
          → Asks h doc q v
          → (r : R) × (decode doc ≡ some r))
      → Answers h body (with_request decode body operation p)
  unfolding with_request json_err_response
  with_request-Answers h decode none operation takes asks asked =
      malformed takes (λ doc q v same ask. let apart : none ≡ some doc = same in cc) refl refl
  with_request-Answers {R = R} h decode (some doc) operation takes asks asked =
      elim (Option-cases (decode doc)) [
        | inl e ↦
            rw (with_request, e)
              (malformed takes
                (λ doc' q v same ask.
                  let read : (r : R) × (decode doc' ≡ some r) = asked doc' q v ask in
                  let given : some doc ≡ some doc' = same in
                  let here : doc ≡ doc' = cc in
                  let apart : none ≡ some read.0 = sym e ∙ (ap decode here ∙ read.1) in cc)
                refl refl)
        | inr (r, e) ↦
            rw (with_request, e)
              (respond-Answers h doc (operation r p).0 (operation r p).1 (asks doc r e))
      ]

  -- Whatever request comes, with whatever body: to a body that asks for the operation of its path the
  -- answer is the document of its result with status 200, or the very error of the operation with the
  -- status of that error, and the plugin is what the operation leaves; any other body is answered by
  -- an error with status 400, and the plugin is what it was. The health check and the capabilities
  -- are answered whatever the body.
  pub serve-Answers : (h : Handler) (body : Option Json) → Answers h body (serve w n h body p)
  unfolding serve json_response api_health api_get_capabilities api_create_network
      api_delete_network api_create_endpoint api_endpoint_oper_info api_delete_endpoint api_join
      api_leave
  serve-Answers health body = healthy refl refl
  serve-Answers get_capabilities body = capable refl refl
  serve-Answers create_network_path body =
      with_request-Answers create_network_path (decode_create_network_request n.texts) body
        (creating w n) refl (λ doc r e. (r, e, refl, result_of-empty_or (create_network w r p).1))
        (λ doc q v a. (a.0, a.1))
  serve-Answers delete_network_path body =
      with_request-Answers delete_network_path decode_network_id body (deleting w n) refl
        (λ doc r e. (r, e, refl, refl)) (λ doc q v a. (a.0, a.1))
  serve-Answers create_endpoint_path body =
      with_request-Answers create_endpoint_path decode_create_endpoint_request body (attaching w n)
        refl
        (λ doc r e.
          let (left, shows) = map_result-shown_as encode_created (create_endpoint w r p) in
          (r, e, left, shows))
        (λ doc q v a. (a.0, a.1))
  serve-Answers endpoint_oper_info_path body =
      with_request-Answers endpoint_oper_info_path decode_endpoint_request body
        (endpoint_oper_info w n.addresses) refl (λ doc r e. (r, e, refl, refl))
        (λ doc q v a. (a.0, a.1))
  serve-Answers delete_endpoint_path body =
      with_request-Answers delete_endpoint_path decode_endpoint_request body (detaching w n) refl
        (λ doc r e. (r, e, refl, refl)) (λ doc q v a. (a.0, a.1))
  serve-Answers join_path body =
      with_request-Answers join_path decode_join_request body (answering w n) refl
        (λ doc r e.
          let (left, shows) = map_result-shown_as encode_join (join w n.routes r p) in
          (r, e, left, shows))
        (λ doc q v a. (a.0, a.1))
  serve-Answers leave_path body =
      with_request-Answers leave_path decode_endpoint_request body (leaving w n) refl
        (λ doc r e. (r, e, refl, refl)) (λ doc q v a. (a.0, a.1))
