-- ===== src/Lib.antt =====
-- The AWS plugin of formae, in Go: it creates, updates, deletes, reads, lists and polls AWS
-- resources for the formae agent.
--
-- aws.go is the entry: an operation goes to the provisioner that pkg/cfres/registry has for its
-- resource type, or else to the Cloud Control client of pkg/ccx. The client rewrites the properties
-- it sends and receives, classifies the errors of AWS, and retries reads; the agent polls with the
-- request id of a result until its status is final. The provisioner of ECS services, pkg/cfres/ecs,
-- adds a second phase to that poll and keeps its state in the request id and the native id; it asks
-- the load balancers for the addresses that it publishes. The provisioners of certificates, which
-- ends every operation at once, and of Route 53 record sets, which the agent polls by the id of a
-- change, call the SDK of their service. A certificate's validation records are published as record
-- sets. The provisioner of image builds starts a build of CodeBuild that pushes an image to a
-- repository; the agent polls it by a request id that carries the build, its deadline, and the
-- image it replaces. The provisioner of group memberships adds one user to one group of IAM and
-- waits until it is seen; that of EC2 routes names a route by its table, its destination and its
-- only target.
--
-- Files and code:
--   Prelude, Text      names of the library, lists, integers, effects; strings as lists of codes,
--                      with what the code uses of strings and strconv
--   Go                 error values and results: a call gives a pointer and an error, or panics
--   Sdk                the data of the formae SDK and of Cloud Control that the plugin touches
--   Json               decoded JSON and Go maps; encoding/json itself is the parameter Codec
--   Status, Props      pkg/status/status.go, pkg/props/props.go
--   Maps, Properties   Go maps from strings; the getters of pkg/cfres/utils/utils.go and the type
--                      assertions that fall back on an empty value
--   Registry           pkg/cfres/registry/registry.go
--   Ccx                pkg/ccx: Strip, Patch, Ignored, Identifier, Read, Write and Poll are parts of
--                      client.go, Retry is retry.go, Errors is errors.go and pkg/helper/helper.go;
--                      Strip also has StripEmptyCollections of pkg/cfres/utils, Identifier IdFrom of
--                      pkg/arn; Cloud is the interface to AWS
--   Ecs                pkg/cfres/ecs: Names and Wrap are parse.go, Classify is classify.go, Timeout
--                      is timeout.go, PhaseA, PhaseB and Final are phase.go; Reading and Steps are
--                      service.go, with the shape gate of parse.go in Steps; Elb is the client of
--                      clients.go, and Endpoints is endpoints.go
--   Acm                pkg/cfres/certificatemanager: Client is acmclient.go and the data of the SDK;
--                      Tags, Reading and Steps are certificate.go
--   Route53            pkg/cfres/route53/record_set.go: Names are the native ids, Metadata is
--                      MetaDataRecordSet, Reading has Read and List, Steps has the other operations;
--                      Client is the interface to AWS
--   CodeBuild          pkg/cfres/codebuild: Input and Buildspec are build.go; Ids, Images, Poll, Builds
--                      and Deletion are imagebuild.go; Client is the data and the interfaces to AWS
--   Iam                pkg/cfres/iam: Membership is usertogroupaddition.go
--   Ec2                pkg/cfres/ec2: Route is route.go
--   Plugin             aws.go
--   Examples           the theorems at concrete inputs
--
-- A function of the code is a function of the same words; a Go function that calls AWS or reads the
-- clock takes and gives back the state W of the outside world. Numbers are native; int64 and uint64
-- arithmetic keeps its wrap-around or saturation where the code can reach it.
--
-- Bounds: the retry loop of Ccx, the poll of Acm, the retries of Ecs/Endpoints and the creation of
-- a project in CodeBuild recurse on the attempts that are left, which is their loops' own bound,
-- and so do the two loops of Iam/Membership. Its loop over the pages of a group has no bound of its
-- own and takes fuel, which is enough when it is not less than the number of the pages. The decimal
-- printer takes fuel, one more than the number, which is enough because each round divides by ten.
-- JSON is a finite tree, on which the code recurses.
--
-- Parameters: the AWS SDK calls, encoding/json, the clock, the random draw, the tests by regular
-- expressions, SHA-256, base64, times in RFC 3339, the building of clients from a target
-- configuration. Of an error the code reads its text and what errors.As and errors.Is find; the
-- record GoError has just that. The codes of Cloud Control and of formae are strings that the code
-- casts, and are one type here.
--
-- Not modelled: logging, contexts but for their end while a retry waits, the static configuration
-- in aws.go, pkg/config, props.Match, and the provisioners of pkg/cfres other than those above.
pub mod Prelude
pub mod Text
pub mod Go
pub mod Sdk
pub mod Json
pub mod Status
pub mod Props
pub mod Maps
pub mod Properties
pub mod Registry
pub mod Ccx
pub mod Ecs
pub mod Acm
pub mod Route53
pub mod CodeBuild
pub mod Iam
pub mod Ec2
pub mod Plugin
pub mod Examples
