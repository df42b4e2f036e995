-- ===== src/Lib.antt =====
-- A model of the Go programs of this repository: under kubernetes/programming-k8s/programming_k8s
-- the CronJob controller circle, the controller greeter with its generated client code, the generated
-- code and the program of sample-controller, and three small programs that show pods; and the server
-- http-whoami.
--
-- Parts. All paths below but the last are within kubernetes/programming-k8s/programming_k8s.
--
--   Base, Time, Kube     what the parts share: numbers, maps, results, handlers that talk to an
--                        environment; Go's instants and durations; the Kubernetes objects.
--   CronJob              circle/api/v1/cronjob_types.go, the API type.
--     Schedule           getNextScheduledTime of circle/internal/controller/cronjob_controller.go,
--                        with its loop `missed_loop`.
--     Pods               getScheduleTimeForPod, newPodForCronJob and the owner index there.
--     Children           the loops of stage 2 of Reconcile: the pods by phase, the new status.
--     Reconcile          Reconcile: `fetch` (stage 1), `observe` (2), `clean_up` (3),
--                        `check_suspended` (4), `find_runs` (5), `run_missed` (6 and 7).
--     DeepCopy           circle/api/v1/zz_generated.deepcopy.go, on a heap (`Cells`).
--   Copies               zz_generated.deepcopy.go as deepcopy-gen generates it for a type and its
--                        lists, in a memory of cells; `Greeter.Copies` and `Sample.Copies` are
--                        what it is for the Greeter and for the resources of sample-controller.
--   Greeter              greeter/pkg/apis/greeter/v1alpha1, the API type.
--     Sync               syncHandler and syncGreeter of greeter/internal/greeter/controller.go, a
--                        definition for each case of the switch on the phase.
--     Queue              Run, runWorker, processNextWorkItem, enqueueGreeter, enqueuePod and the
--                        handlers that NewController registers there.
--   Lister               greeter/pkg/generated/listers/greeter/v1alpha1/greeter.go.
--   ApplyConfig          greeter/pkg/generated/applyconfiguration.
--   Client               greeter/pkg/generated/clientset/versioned/typed/greeter/v1alpha1: `Rest`
--                        is greeter.go, `Fake` is fake/fake_greeter.go; `Clientset` and
--                        `Accessors` are greeter_client.go and clientset.go above it, `Simple`
--                        is NewSimpleClientset of fake/clientset_generated.go.
--   Factory              greeter/pkg/generated/informers/externalversions: factory.go; `Greeters`
--                        is greeter/v1alpha1/greeter.go and `ForResource` of generic.go, `Generic`
--                        the rest of generic.go and the two files interface.go.
--   Sample               sample-controller/pkg: a namespaced and a cluster-wide resource, in the
--                        versions v1alpha1 and v1alpha2, as one family by version and scope.
--     Typed, Fake        clientset/versioned/typed/sample; `Requests` is what is asked for, and
--                        `Agreement` that the fake clients stand for the typed ones.
--     Apply              applyconfiguration; `Built` is what a chain of builders makes.
--     Lister             listers/sample.
--     Informers          informers/externalversions; `SharedFactory` is factory.go.
--     Clientset          clientset/versioned: clientset.go and sample_client.go, with `Accessors`.
--     V1, V2             the functions of each version and resource under the names of the source.
--   Programs             the main functions: `GreeterProgram` is greeter/main.go with NewController
--                        of greeter/internal/greeter/controller.go, `SampleProgram` is
--                        sample-controller/cmd/sample_controller/main.go, `CircleProgram` is
--                        circle/cmd/main.go with SetupWithManager, `Machinery` is
--                        machinery/clientset.go, and `PodPrograms` is quickstart/cmd/quickstart,
--                        watcher/cmd/watcher and informer/cmd/informer.
--   Whoami               kubernetes/k8s-practise/pod/http-whoami/main.go; its handler runs on one
--                        request after the other, and in `Race` on several at the same time.
--
-- How they interact. A controller is a handler that makes calls of its environment (the API
-- server, a cache, the work queue, the clock, the event recorder). A handler is run after the
-- history of all earlier calls, and answers may depend on that history, so that a second reading
-- of the clock may differ from the first, and other programs may change the cluster between two
-- calls. It ends with a value, an early return or a panic. The Greeter controller's sync reads
-- its Greeter through the lister; the informer's list and watch functions go through the typed
-- client; `Apply` of both clients takes the configurations that the builders build. The pod that a
-- sync creates leads the pod's events back to the Greeter (`Feedback`), and so does the event of a
-- status that a sync stores (`Lifecycle`). `main` of greeter makes the controller of a factory's informer and
-- starts the factory; `main` of sample-controller lists the caches of two informers of one factory.
--
-- Bounds. Instants are integers, in nanoseconds since Go's zero time. Durations are int64: a
-- product wraps, and the difference of two instants is cut off at the ends of the range; adding a
-- duration to an instant is exact, which holds for the years that time.Time can express. The loop
-- in getNextScheduledTime runs on fuel 101: it counts the runs and stops when more than 100 were
-- counted, so that it needs a round for each of 100 runs and one in which it ends. A worker's
-- loop, which ends only when the queue is shut down, runs for a number of rounds, and so do the loops
-- of quickstart and informer, which do not end.
--
-- Libraries as parameters: the cron parser, the formats of time, the API server, the caches, the
-- references to owners, the work queue, reflect.Type, JSON and the informers. sort.Slice is a
-- parameter as well. Maps are association lists. A pointer that a function changes and returns is
-- a value that it returns.
--
-- Not modelled: logging, metrics and flags; signal handlers; the registration of types; the fake
-- discovery; the other programs of the repository, which are small examples for its notes.
pub mod Base
pub mod Time
pub mod Kube
pub mod CronJob
pub mod Greeter
pub mod Lister
pub mod ApplyConfig
pub mod Client
pub mod Copies
pub mod Factory
pub mod Whoami
pub mod Sample
pub mod Programs
