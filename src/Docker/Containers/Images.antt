-- ===== src/Docker/Containers/Images.antt =====
-- Which image the listing of internal/docker/containers.go tells of a container.
use dockhand.Prelude.{
  ◌≡◌, refl, ap, ◌∙◌, Option, none, some, List, [], ◌∷◌, if◌then◌else◌, Text, text_eq, Map, lookup,
  insert, lookup-insert, Result, ok, err,
}
use dockhand.Docker.Records.{ContainerInfo, Container, Image}
use dockhand.Docker.Containers.{
  container_to_info, ImageMetadata, add_images, build_image_metadata_map, with_metadata, list_infos,
  list_containers,
}

-- The last image of the list with this id, as the search from the front finds it.
abbrev pub last_image : Text → Option ImageMetadata → List Image → Option ImageMetadata
last_image id found [] = found
last_image id found (i ∷ is) =
    last_image id
      (if text_eq i.id id
        then some (record { repo_digests = i.repo_digests; created = i.created })
        else found)
      is

-- The summaries with the metadata of these images.
abbrev pub described : List Image → List Container → List ContainerInfo
described imgs [] = []
described imgs (c ∷ cs) =
    with_metadata (last_image c.image_id none imgs) (container_to_info c) ∷ described imgs cs

abbrev pub images_of : Result (List Image) → List Image
images_of (err e) = []
images_of (ok imgs) = imgs

lookup-add_images :
    (id : Text) (imgs : List Image) (m : Map ImageMetadata)
    → lookup id (add_images m imgs) ≡ last_image id (lookup id m) imgs
lookup-add_images id [] m = refl
lookup-add_images id (i ∷ is) m =
    let meta : ImageMetadata = record { repo_digests = i.repo_digests; created = i.created } in
    lookup-add_images id is (insert i.id meta m)
    ∙ ap (λ found. last_image id found is) (lookup-insert i.id id meta m)

list_infos-described :
    (imgs : List Image) (raw : List Container)
    → list_infos (add_images [] imgs) raw ≡ described imgs raw
unfolding lookup
list_infos-described imgs [] = refl
list_infos-described imgs (c ∷ cs) =
    rw (lookup-add_images c.image_id imgs [], list_infos-described imgs cs) refl

-- If the engine lists its containers, the answer has each of them once, in this order, with the digests
-- and the build time of the last listed image that has the container's image id, and without them if
-- there is none or the engine does not list its images; and if it fails, the answer is its error.
list_containers_described :
    (raw : List Container) (imgs : Result (List Image)) (e : Text)
    → (list_containers (ok raw) imgs ≡ ok (described (images_of imgs) raw))
      × (list_containers (err e) imgs ≡ err e)
unfolding list_containers build_image_metadata_map
list_containers_described raw (err f) e = (ap ok (list_infos-described [] raw), refl)
list_containers_described raw (ok imgs) e = (ap ok (list_infos-described imgs raw), refl)
