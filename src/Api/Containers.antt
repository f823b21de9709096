-- ===== src/Api/Containers.antt =====
-- internal/api/handlers/containers.go: the handlers of containers and images. The Docker client, none while
-- Docker is not available, is a record of what its methods answer; JSON text is left as it is.
pub mod Streams
pub mod Client
use dockhand.Prelude.{
  ℕ, Bool, true, false, not, ◌&&◌, Option, none, some, List, [], ◌∷◌, ◌++◌, if◌then◌else◌, ◌||◌,
  Text, codes, text_eq, is_empty, Result, ok, err, pos,
}
use dockhand.Docker.Records.{ContainerInfo, ImageInfo, CreateContainerResult}
use dockhand.Docker.Upgrade.{UpgradeResult}
use dockhand.Sse.{send, send_json, line, error, done}
use dockhand.Api.{Response, json, failed, Reply, streamed, refused, json_created}
use dockhand.Sse.Progress.{Piece, log_lines, progress_text}

-- The lines that a call emitted, and its result
pub record Emitted {ℓ} (A : Type ℓ) : Type ℓ where
  pub lines : List Text
  pub result : A

-- The progress of an upgrade, and its result
pub record Progressed {ℓ} (A : Type ℓ) : Type ℓ where
  pub progress : List Piece
  pub result : A

-- DockerClient
pub record DockerClient : Type 0 where
  pub list_containers : Result (List ContainerInfo)
  pub inspect_container : Text → Result (Option ContainerInfo)
  pub upgrade_container : Text → Progressed (Result UpgradeResult)
  pub stream_logs : Text → Text → Bool → Emitted (Option Text)
  pub full_inspect : Text → Result Text
  pub stop_container : Text → Option Text
  pub start_container : Text → Option Text
  pub remove_container : Text → Bool → Option Text
  pub create_container : Text → Text → Result CreateContainerResult
  pub list_images : Result (List ImageInfo)
  pub pull_image : Text → Option Text
  pub remove_image : Text → Bool → Option Text

abbrev unavailable : Text
unavailable = codes "Docker is not available on this runner"

-- The test on the client at the beginning of every handler.
abbrev pub with_docker {ℓ κ} : {D : Type κ} {A : Type ℓ} → Option D → (D → Response A) → Response A
with_docker none h = failed 503 unavailable
with_docker (some d) h = h d

abbrev stream_with : Option DockerClient → (DockerClient → Text) → Reply
stream_with none h = refused 503 unavailable
stream_with (some d) h = streamed (h d)

abbrev pub answered {ℓ} : {A : Type ℓ} → Text → Result A → Response A
answered message (ok x) = json x
answered message (err e) = failed 500 (message ++ e)

-- The answer {"success": true}
abbrev pub succeeded : Text → Option Text → Response Bool
succeeded message none = json true
succeeded message (some e) = failed 500 (message ++ e)

abbrev pub found : Result (Option ContainerInfo) → Response ContainerInfo
found (err e) = failed 500 (codes "inspect error: " ++ e)
found (ok none) = failed 404 (codes "container not found")
found (ok (some i)) = json i

-- List
unfoldable list_handler : Option DockerClient → Response (List ContainerInfo)
list_handler dc =
    with_docker dc (λ d. answered (codes "failed to list containers: ") d.list_containers)

-- Get
unfoldable get_handler : Option DockerClient → Text → Response ContainerInfo
get_handler dc id = with_docker dc (λ d. found (d.inspect_container id))

-- FullInspect
unfoldable full_inspect_handler : Option DockerClient → Text → Response Text
full_inspect_handler dc id =
    with_docker dc (λ d. answered (codes "inspect error: ") (d.full_inspect id))

-- Stop
unfoldable stop_handler : Option DockerClient → Text → Response Bool
stop_handler dc id = with_docker dc (λ d. succeeded (codes "stop error: ") (d.stop_container id))

-- Start
unfoldable start_handler : Option DockerClient → Text → Response Bool
start_handler dc id = with_docker dc (λ d. succeeded (codes "start error: ") (d.start_container id))

-- Remove; `force` is the query parameter.
unfoldable remove_handler : Option DockerClient → Text → Text → Response Bool
unfolding text_eq
remove_handler dc id force =
    with_docker dc (λ d.
      succeeded (codes "remove error: ") (d.remove_container id (text_eq force (codes "true"))))

abbrev created_answer : Result CreateContainerResult → Response CreateContainerResult
created_answer (ok x) = json_created x
created_answer (err e) = failed 500 (codes "create error: " ++ e)

abbrev created : DockerClient → Text → Result Text → Response CreateContainerResult
created d name (err e) = failed 400 (codes "invalid request body: " ++ e)
created d name (ok body) = created_answer (d.create_container name body)

-- Create, with the decoded body
unfoldable create_handler :
    Option DockerClient → Text → Result Text → Response CreateContainerResult
create_handler dc name body = with_docker dc (λ d. created d name body)

-- ListImages
unfoldable list_images_handler : Option DockerClient → Response (List ImageInfo)
list_images_handler dc = with_docker dc (λ d. answered (codes "list images error: ") d.list_images)

abbrev pull_ref : Text → Text → Text
pull_ref image tag = if is_empty tag then image else image ++ (codes ":" ++ tag)

abbrev pulled : DockerClient → Result (Text × Text) → Response Bool
pulled d (err e) = failed 400 (codes "invalid request body: " ++ e)
pulled d (ok (image, tag)) =
    if is_empty (pull_ref image tag)
    then failed 400 (codes "fromImage is required")
    else succeeded (codes "pull error: ") (d.pull_image (pull_ref image tag))

-- PullImage, with the image and the tag of the decoded body
unfoldable pub pull_image_handler : Option DockerClient → Result (Text × Text) → Response Bool
pull_image_handler dc body = with_docker dc (λ d. pulled d body)

-- The values that strconv.ParseBool takes for true; an error stands for false.
abbrev parse_bool : Text → Bool
parse_bool s =
    text_eq s (codes "1")
    || text_eq s (codes "t")
    || text_eq s (codes "T")
    || text_eq s (codes "true")
    || text_eq s (codes "TRUE")
    || text_eq s (codes "True")

-- RemoveImage
unfoldable remove_image_handler : Option DockerClient → Text → Text → Response Bool
unfolding text_eq
remove_image_handler dc id force =
    with_docker dc
      (λ d. succeeded (codes "remove image error: ") (d.remove_image id (parse_bool force)))

-- `result_json` is the JSON of the result, with the duration.
module _ (result_json : UpgradeResult → Text) where
  abbrev pub upgrade_end : Result UpgradeResult → Text
  upgrade_end (err e) = error e ++ done (pos 1)
  upgrade_end (ok u) = send_json (codes "result") (result_json u) ++ done (pos 0)

  abbrev pub upgrade_stream : Text → Progressed (Result UpgradeResult) → Text
  upgrade_stream id x =
      send (codes "start") id ++ (progress_text x.progress ++ upgrade_end x.result)

  -- Upgrade
  unfoldable pub upgrade_handler : Option DockerClient → Text → Reply
  unfolding send send_json line error done
  upgrade_handler dc id = stream_with dc (λ d. upgrade_stream id (d.upgrade_container id))

abbrev logs_end : Bool → Option Text → Text
logs_end gone none = done (pos 0)
logs_end gone (some e) = if gone then done (pos 0) else error e ++ done (pos 0)

abbrev logs_stream : Bool → Emitted (Option Text) → Text
logs_stream gone x = log_lines x.lines ++ logs_end gone x.result

-- Logs; `gone` tells whether the request was cancelled meanwhile.
unfoldable logs_handler : Option DockerClient → Bool → Text → Text → Text → Reply
unfolding line error done text_eq
logs_handler dc gone id tail follow =
    stream_with dc (λ d. logs_stream gone (d.stream_logs id tail (text_eq follow (codes "true"))))
