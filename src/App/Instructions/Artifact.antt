-- ===== src/App/Instructions/Artifact.antt =====
-- Which artifact a device is told to install (assignArtifact of app/app_os.go,
-- ImageByNameAndDeviceType and ImageByIdsAndDeviceType of store/mongo/datastore_mongo.go).
use deployments.Shared.{
  ℕ, suc, ◌≡◌, refl, ◌≤◌, inl, inr, String, Bool, true, false, ◌&&◌, Option, none, some, List, [],
  ◌∷◌, ◌==◌, arith,
}
use deployments.Shared.Arrays.{get_elem?}
use deployments.Shared.Tests.{if◌then◌else◌, nat_eq, Option-cases}
use deployments.Shared.Lists.{All, any, length}
use deployments.Model.Deployment.{Deployment}
use deployments.Model.Image.{Image}
use deployments.Model.Request.{InstalledDeviceDeployment}
use deployments.Store.World.{World}
use deployments.Store.Exec.{wrap}
use deployments.Store.Exec.Returns.{Returned, Returned-refuse_if, Returned-query, Returned-wrap}
use deployments.Store.Mongo.{Mongo, Sort, ascending, find_one}
use deployments.Store.Mongo.Order.{weaken-All}
use deployments.Store.Mongo.Laws.{find_one-none, find_one-among, find_one-passes, find_one-first}
use deployments.Store.Images
use deployments.Store.Images.{fits}
use deployments.App.Instructions.{artifact_for}

-- the artifacts that a deployment has for a device: by name, or by identifier
abbrev pub chosen_by : Bool → Deployment → InstalledDeviceDeployment → Image → Bool
chosen_by true deployment installed i =
    i.meta.name == installed.artifact_name && fits installed.device_type i
chosen_by false deployment installed i =
    any (λ id. id == i.id) deployment.artifacts && fits installed.device_type i

-- a deployment without artifacts is an old one, whose artifacts are found by name
abbrev pub qualifies : Deployment → InstalledDeviceDeployment → Image → Bool
qualifies deployment installed =
    chosen_by (nat_eq (length deployment.artifacts) 0) deployment installed

abbrev pub IsThere : {A : Type 0} → List A → A → Type 0
IsThere xs x = (n : ℕ) × (get_elem? xs n ≡ some x)

-- the image passes a test, is there, and none that passes is smaller
pub record IsSmallest (p : Image → Bool) (images : List Image) (i : Image) : Type 0 where
  pub there : IsThere images i
  pub passes : p i ≡ true
  pub smallest : All (λ e. p e ≡ true → i.size ≤ e.size) images

abbrev pub Choice : (Image → Bool) → List Image → Option Image → Type 0
Choice p images none = All (λ i. p i ≡ false) images
Choice p images (some i) = IsSmallest p images i

everyone-IsThere : {A : Type 0} (xs : List A) → All (IsThere xs) xs
everyone-IsThere [] = tt
everyone-IsThere (x ∷ xs) =
    ((0, refl), weaken-All (λ y there. (suc there.0, there.1)) xs (everyone-IsThere xs))

module _ (mongo : Mongo) where
  smallest-Choice :
      (p : Image → Bool) (images : List Image)
      → Choice p images (find_one mongo Image p (ascending (λ i. i.size)) images)
  smallest-Choice p images =
      let by_size : Sort Image = ascending (λ i. i.size) in
      elim (Option-cases (find_one mongo Image p by_size images)) [
        | inl missing ↦ rw missing (find_one-none mongo p by_size images missing)
        | inr (i, found) ↦ rw found (record {
          there =
              find_one-among mongo p by_size images (IsThere images) i found
                (everyone-IsThere images);
          passes = find_one-passes mongo p by_size images i found;
          smallest =
              weaken-All (λ e first passes. ground (arith, first passes)) images
                (find_one-first mongo p by_size images i found);
        })
      ]

  by_name-Choice :
      (name device_type : String) (w : World)
      → let p : Image → Bool = λ i. i.meta.name == name && fits device_type i in
        Returned
          (Choice p w.images)
          (Images.image_by_name_and_device_type mongo name device_type w).0
  unfolding Images.image_by_name_and_device_type Images.find_smallest_image
  by_name-Choice name device_type w =
      Returned-refuse_if _ w _ _ _
        (Returned-refuse_if _ w _ _ _ (Returned-query _ w _ (smallest-Choice _ w.images)))

  by_ids-Choice :
      (ids : List String) (device_type : String) (w : World)
      → let p : Image → Bool = λ i. any (λ id. id == i.id) ids && fits device_type i in
        Returned (Choice p w.images) (Images.image_by_ids_and_device_type mongo ids device_type w).0
  unfolding Images.image_by_ids_and_device_type Images.find_smallest_image
  by_ids-Choice ids device_type w =
      Returned-refuse_if _ w _ _ _
        (Returned-refuse_if _ w _ _ _ (Returned-query _ w _ (smallest-Choice _ w.images)))

  chosen_by-Choice :
      (b : Bool) (deployment : Deployment) (installed : InstalledDeviceDeployment) (w : World)
      → Returned
          (Choice (chosen_by b deployment installed) w.images)
          ((if b
              then wrap (
                  Images.image_by_name_and_device_type mongo installed.artifact_name
                    installed.device_type)
              else wrap (
                  Images.image_by_ids_and_device_type mongo deployment.artifacts
                    installed.device_type))
            w).0
  chosen_by-Choice true deployment installed w =
      Returned-wrap _ w _ (by_name-Choice installed.artifact_name installed.device_type w)
  chosen_by-Choice false deployment installed w =
      Returned-wrap _ w _ (by_ids-Choice deployment.artifacts installed.device_type w)

  pub artifact_for-Choice :
      (deployment : Deployment) (installed : InstalledDeviceDeployment) (w : World)
      → Returned
          (Choice (qualifies deployment installed) w.images)
          (artifact_for mongo deployment installed w).0
  unfolding artifact_for
  artifact_for-Choice deployment installed w =
      chosen_by-Choice (nat_eq (length deployment.artifacts) 0) deployment installed w
