-- ===== src/Lib.antt =====
-- A model of the deployments service, which hands out software updates to devices and follows
-- their progress.
--
-- The program. A user creates a deployment (model/deployment.go): a name, an artifact and the
-- devices that it targets. A device that asks for an update gets a device deployment
-- (model/device_deployment.go), reports its progress as a status, and ends in a finished status.
-- The application layer (app/app.go) decides; it keeps its data through the store
-- (store/mongo/datastore_mongo.go) in the collections "deployments" and "devices" of a database
-- server. A deployment holds a counter for each status of its device deployments, and from these
-- counters follows its own status. The two collections are written one after the other, without a
-- transaction. A deployment installs artifacts, which users upload (app/app.go), directly or
-- through a signed link that a clean-up settles when it expires (app/app_cmd.go); an artifact is an
-- image in the database, an object in the object storage, and a part of the release of its name
-- (app/app_releases.go), which has tags and notes. A device that asks is told which artifact to
-- install and gets a link to it (app/app_os.go).
--
-- The files.
--   Shared: native numbers, integers, lists, Boolean tests, and the library's names passed on.
--   Model.Status: DeviceDeploymentStatus of model/device_deployment.go, with Active, MarshalText,
--     UnmarshalText, NewStatus and the lists of statuses. Model.Stats: Stats with Set, Inc, Get and
--     NewDeviceDeploymentStats. Model.DeviceDeployment and Model.Request: the records and their
--     Validate (also model/device_deployment_last_status.go). Model.Deployment:
--     model/deployment.go and model/configuration_deployment.go, with ValidateNew,
--     NewDeploymentFromConstructor, IsNotPending, IsFinished and GetStatus. Model.Image: the
--     records of model/image.go with their Validate and NewImage. Model.Validation: the rules of the
--     validation library, as a record of tests with what they are documented to accept.
--     Model.Query: Query, ListQuery, ListQueryDeviceDeployments and ReleaseOrImageFilter with their
--     Validate (model/deployment.go, store/query.go, store/query_device_deployments.go). Model.Text:
--     what the service uses of Go's strings and strconv. Model.Limited: the readers of utils/io.go.
--     Model.Log: model/device_deployment_log.go. Model.Signature: model/signature.go, over a record
--     of what it uses of Go's libraries.
--     Model.Release: Tags, Notes and Release of model/release.go, with Dedup and the Validate
--     methods. Model.Link: model/link.go, with the states of an upload link and, in Moves, the
--     steps between them; Texts is about their texts. Model.Limit: model/limit.go. Model.Settings:
--     StorageType and StorageSettings of model/storage_settings.go. Model.Instructions:
--     model/deployment_instructions.go. Model.Samples: data for the tests.
--   Store.Mongo: the calls of the database driver, as a record of functions with their documented
--     behaviour; Store.Mongo.Reference is one implementation of it, Store.Mongo.Laws and
--     Store.Mongo.Order are what the operations get from it. Store.World: the
--     database and what is around it. Store.Errors: the errors by name. Store.Exec: operations that
--     read and change the world and may fail, with their do notation; its children say
--     what an operation keeps (Keeps), which errors it ends with (Raises) and what it returns
--     (Returns). Store.Devices, Store.Deployments and Store.Insertion: the methods of
--     DataStoreMongo in store/mongo/datastore_mongo.go and datastore_mongo_last_status.go, one
--     function each, named as there. Store.Ledger: when the counters agree with the device
--     deployments. Store.Live: reading a device's deployment. Store.Images, Store.Uploads and
--     Store.Settings: the methods of DataStoreMongo on artifacts, upload links, storage settings and
--     limits. Store.Releases: store/mongo/datastore_mongo_releases.go; Store.Releases.Bounds is about
--     the tags in use. Store.Logs: the methods of DataStoreMongo on logs of devices.
--     Store.Finish: the finish times over UpdateStats. Store.Listing: Find and findOptions, and in its
--     children the other lists with a page and a total (store/mongo/datastore_mongo.go).
--   App.Progress: UpdateDeviceDeploymentStatus and recalcDeploymentStatus of app/app.go.
--     App.Assignment: getDeploymentForDevice, getNewDeploymentForDevice and
--     createDeviceDeploymentWithStatus of app/app.go. App.Abort: AbortDeployment and
--     IsDeploymentFinished of app/app.go. App.Reindex: reindexDevice, reindexDeployment and the batch
--     of DeleteDeviceDeploymentsHistory. App.Objects: the ObjectStorage interface of
--     storage/objectstore.go, the libraries as a record, and contextWithStorageSettings of
--     app/app.go. App.Releases: app/app_releases.go and UpdateDeploymentsWithArtifactName.
--     App.Artifacts: handleArtifact, CreateImage, GetImage, EditImage, DeleteImage and DownloadLink
--     of app/app.go. App.Uploads: UploadLink, CompleteUpload and processUploadedArtifact of
--     app/app.go and all of app/app_cmd.go. App.Instructions: app/app_os.go, and
--     saveDeviceDeploymentRequest, getDeploymentInstructions and GetDeploymentForDeviceWithCurrent of
--     app/app.go. App.Creation: CreateDeployment, updateDeploymentConstructor,
--     CreateDeviceConfigurationDeployment and getDeploymentGroups. App.Decommission:
--     updateDeviceDeploymentsStatus with its two callers, and DeleteDeviceDeploymentsHistory.
--     App.Queries: GetLimit, GetDeployment, GetDeploymentStats, the storage settings, and
--     app/app_last_status.go. App.Listing: LookupDeployment, GetDeploymentsStats,
--     GetDeviceStatusesForDeployment, GetDevicesListForDeployment, GetDeviceDeploymentListForDevice
--     and ListImages. App.Logs: SaveDeviceDeploymentLog and GetDeviceDeploymentLog.
--     App.Samples: data for the tests.
--   Http: the handlers of api/http, which a router calls. A handler is an operation whose result is
--     what it writes to the response: Http.View is utils/restutil/view/view.go, Http.Request holds
--     what a request carries, getReleaseOrImageFilter and ParseLookupQuery, Http.Multipart the forms
--     of uploads, Http.Calls how a handler sees the errors of a call. Http.Artifacts,
--     Http.Deployments, Http.Devices, Http.Listing and Http.Tenants: the handlers of
--     api/http/api_deployments.go, one function each, named as there, and of
--     api_deployments_last_status.go. Http.Configuration: the link to a configuration and its download.
--     Http.Logs: the handlers of logs. Http.Releases: api/http/api_deployments_releases.go.
--
-- State and errors. An operation is a function from the world to its result and the world after it,
-- so what was written before an error stays written. The world holds the database of one tenant,
-- and the last statuses in the database that requests without a tenant have, the readings of the
-- clock and the random identifiers still to come, and what happens to each call of the database: it
-- is answered, its request is lost, or its reply is lost after the change. Wrapped errors differ
-- from the errors in them, as a comparison in Go sees it. A nil pointer that the code follows is an
-- error of its own; no handler catches it. A handler that goes on after a reply writes another one;
-- the client gets the status of the first.
--
-- Concurrency. The task that CompleteUpload starts, and each beat of its heart, are operations of
-- their own, and a list of operations is one order in which they and others run; an operation runs
-- as a whole. An upload that runs beside the reader of the artifact is one call.
--
-- Numbers. Counters and sizes are integers without bound: they count documents of a database, far
-- below 2^63. Times are natural numbers of nanoseconds in the order of the instants, the zero time
-- is 0. The database keeps times to the millisecond; so does the model when a deployment is created and
-- a log is saved, and it keeps the times of other writes whole. A status that is none of the constants
-- is not represented. The status of a link is a uint32: its bits are set by the bit operations on
-- numbers below 2^32.
--
-- Loops. The loops over pages run on fuel, one unit for each page: getNewDeploymentForDevice and
-- updateDeviceDeploymentsStatus over pages of 100 deployments, for the first of which more units than
-- there are deployments are enough, and updateDeploymentConstructor over pages of 512 devices,
-- for which as many units as the inventory has pages are enough. When the fuel is spent, the
-- model ends with an error that the code does not have. CleanupExpiredUploads takes the
-- list of what its waits end with; no interval is one pass.
--
-- Not modelled: the routes, the decoding of JSON, whose result a handler takes as an argument, the
-- pages and links of the library, the redaction of queries that are logged, the clients of other
-- services (client), the backends of the object storage (storage), migrations and indexes,
-- configuration and start-up, which are input and output; the generation of images; the tenants'
-- databases and their creation; GetReleases for a database that is not migrated yet. The choice of
-- the tenant's database from the context and errors of the random source are left out. Third-party
-- packages under vendor are parameters.
pub mod Shared
pub mod Model
pub mod Store
pub mod App
pub mod Http
